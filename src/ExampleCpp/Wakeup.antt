-- ===== src/ExampleCpp/Wakeup.antt =====
-- The client never sleeps while work waits for it.
use usb_vhci_libusb.Prelude.{ℕ, ◌≡◌, refl, sym, subst, true, false, arith, List, [], ◌∷◌}
use usb_vhci_libusb.Errno.{Errno}
use usb_vhci_libusb.Kernel.{Header}
use usb_vhci_libusb.Hcd.Owned.{Owns, pending}
use usb_vhci_libusb.Hcd.Laws.{AllSound}
use usb_vhci_libusb.Hcd.Next.{is_nonempty}
use usb_vhci_libusb.LocalHcd.Laws.{Sound}
use usb_vhci_libusb.ExampleCpp.Callbacks.{call_all, tells, call_all-signals}
use usb_vhci_libusb.ExampleCpp.{Pc, top, asleep}
use usb_vhci_libusb.ExampleCpp.System.{
  System, Step, looks, wakes, takes, completes, queues, withdraws, Reach, here, next, At, Inv,
}
use usb_vhci_libusb.ExampleCpp.ClientSteps.{looks-Inv, wakes-Inv, takes-Inv, completes-Inv}
use usb_vhci_libusb.ExampleCpp.BackgroundSteps.{queues-Inv, withdraws-Inv}

module _ (e : Errno) (k : Header) where
  pub Step-Inv : {s t : System} → Step e k s t → Inv k s → Inv k t
  Step-Inv {s} (looks at) inv = looks-Inv e k s at inv
  Step-Inv {s} (wakes at) inv = wakes-Inv e k s at inv
  Step-Inv {s} (takes r t at runs) inv = takes-Inv e k s r t at runs inv
  Step-Inv {s} (completes w m reply t at fresh mem runs) inv =
      completes-Inv e k s w m reply t at fresh mem runs inv
  Step-Inv {s} (queues q o t d fresh good runs) inv = queues-Inv e k s q o t d fresh good runs inv
  Step-Inv {s} (withdraws m number t fresh mem runs) inv =
      withdraws-Inv e k s m number t fresh mem runs inv

  Reach-Inv : {s t : System} → Inv k s → Reach e k s t → Inv k t
  Reach-Inv inv here = inv
  Reach-Inv inv (next r st) = Step-Inv st (Reach-Inv inv r)

  -- No wake-up is lost. Whatever the threads do, from the start of the loop, with `has_work` set,
  -- works owned and the callback registered: while the client sleeps and no signal is on its way, no
  -- work waits that it could be handed, it holds none, and a call of the registered callbacks
  -- signals it.
  pub no_lost_wakeup :
      (start s : System)
      → Owns start.hcd
      → AllSound (Sound k) start.hcd
      → start.hcd.processing ≡ []
      → start.shared.has_work ≡ true
      → tells start.hcd.work_enqueued_callbacks ≡ true
      → start.pc ≡ top
      → Reach e k start s
      → s.pc ≡ asleep
      → s.shared.signalled ≡ false
      → (pending s.hcd.store s.hcd.inbox ≡ [])
        × (s.hcd.processing ≡ [])
        × ((call_all true s.hcd.work_enqueued_callbacks s.shared).signalled ≡ true)
  no_lost_wakeup start s own sound none_held told among at_top reached sleeps unsignalled =
      let begins : Inv k start = record {
        owns = own;
        sound = sound;
        registered = among;
        here = subst (λ (p : Pc). At p start) (sym at_top) (none_held, λ first busy_now. told);
      } in
      let holds = Reach-Inv begins reached in
      let place = subst (λ (p : Pc). At p s) sleeps holds.here in
      let quiet = place.1 unsignalled in
      (
        no_elements (pending s.hcd.store s.hcd.inbox) quiet.1,
        place.0,
        call_all-signals s.hcd.work_enqueued_callbacks s.shared holds.registered quiet.0,
      )
    where
      no_elements : (xs : List ℕ) → is_nonempty xs ≡ false → xs ≡ []
      no_elements [] e = refl
      no_elements (x ∷ xs) e = absurd (ground (arith, e))
