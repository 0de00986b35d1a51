-- ===== src/LocalHcd/Lifetime/Destruction.antt =====
-- The destructor of `local_hcd` undoes the constructor.
use usb_vhci_libusb.Prelude.{
  ℕ, suc, ◌<◌, ◌≡◌, inl, inr, refl, ap, ◌∙◌, Bool, false, ◌==◌, none, some, List, [], replicate,
  pos, Bool-cases, arith,
}
use usb_vhci_libusb.Outcome.{Outcome, done}
use usb_vhci_libusb.Device.{Reply, Returned}
use usb_vhci_libusb.Device.Open.{IocRegister, SystemCall, closes, usb_vhci_close}
use usb_vhci_libusb.Device.Open.Close.{Settles, as_returned, usb_vhci_close-returns}
use usb_vhci_libusb.Hcd.{destroy}
use usb_vhci_libusb.Hcd.Owned.{Owns}
use usb_vhci_libusb.Hcd.Finish.{destroy_frees}
use usb_vhci_libusb.Hcd.Thread.{Control, no_thread, begin_join, end_join}
use usb_vhci_libusb.LocalHcd.{LocalHcd}
use usb_vhci_libusb.LocalHcd.Lifetime.{Supplies, join_bg_thread, destroy_local}
use usb_vhci_libusb.LocalHcd.Lifetime.Ways.{IsNew}

-- `delete[] port_info`.
abbrev portless : LocalHcd → LocalHcd
portless h = record h { derived = record (h.derived) { port_info = [] } }

join_once : (c : Control) → c.thread_shutdown ≡ false → join_bg_thread c ≡ no_thread
unfolding join_bg_thread begin_join end_join
join_once c clear = elim (Bool-cases (c.bg_thread == 0)) [
  | inl idle ↦ rw (idle, join_bg_thread) (idle_control (ground arith))
  | inr busy ↦ rw (busy, join_bg_thread) refl
]
  where
    idle_control : c.bg_thread ≡ 0 → c ≡ no_thread
    idle_control i =
        ap (λ (t : ℕ). record c { bg_thread = t }) i
        ∙ ap (λ (f : Bool). record { bg_thread = 0; thread_shutdown = f }) clear

joins_closes :
    (eintr fuel fd : ℕ) (replies : ℕ → Reply (Unit {0})) (h : LocalHcd) (c : Control)
    (r : Returned (List SystemCall)) (o : Outcome LocalHcd (Unit {0}))
    → h.derived.fd ≡ pos fd
    → usb_vhci_close eintr fuel fd replies ≡ some r
    → destroy (portless h) ≡ o
    → destroy_local eintr fuel replies h c ≡ some (r, join_bg_thread (join_bg_thread c), o)
unfolding destroy_local
joins_closes eintr fuel fd replies h c r o at_fd closed frees =
    rw (at_fd, destroy_local)
      (rw (closed, destroy_local) (ap (λ o. some (r, join_bg_thread (join_bg_thread c), o)) frees))

-- The destructor of `local_hcd` undoes the construction, whatever was queued and handed out in
-- between: if the containers own the works and the last answer to `close` is not EINTR and comes
-- within the rounds, it joins the thread, of which then none is recorded, calls `close` on the
-- descriptor that the constructor opened, on no other, until it is not interrupted, and frees every
-- work.
pub destroy_local-undoes :
    (eintr fuel n : ℕ) (replies : ℕ → Reply (Unit {0}))
    → Settles eintr replies n
    → n < fuel
    → (sup : Supplies) (ports fd : ℕ) (d : IocRegister) (new : LocalHcd) (c : Control)
      (h : LocalHcd)
    → IsNew sup ports fd d new c
    → h.derived.fd ≡ new.derived.fd
    → Owns h
    → (t : LocalHcd) × (destroy_local eintr fuel replies h c
        ≡ some (as_returned (replies n) (replicate (suc n) (closes fd)), no_thread, done tt t))
      × ((p : ℕ) → t.store p ≡ none)
destroy_local-undoes eintr fuel n replies settles enough sup ports fd d new c h is same own =
    let (t, frees, free) = destroy_frees (portless h) own in
    let joined : join_bg_thread (join_bg_thread c) ≡ no_thread =
      ap join_bg_thread (join_once c is.flag) ∙ join_once no_thread refl in
    let closed = as_returned (replies n) (replicate (suc n) (closes fd)) in
    (
      t,
      joins_closes eintr fuel fd replies h c closed (done tt t) (same ∙ is.fd)
            (usb_vhci_close-returns eintr fuel fd n replies settles enough) frees
          ∙ ap (λ (k : Control). some (closed, k, done tt t)) joined,
      free,
    )
