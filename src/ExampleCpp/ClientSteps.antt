-- ===== src/ExampleCpp/ClientSteps.antt =====
-- The client's steps keep the invariant.
use usb_vhci_libusb.Prelude.{
  ℕ, ◌<◌, ◌≡◌, refl, sym, subst, ap, ◌∙◌, Bool, true, false, arith, ==_refl, Option, none, some,
  List, [], ◌∷◌, Bool-cases, inl, inr,
}
use usb_vhci_libusb.Errno.{Errno}
use usb_vhci_libusb.Kernel.{Header}
use usb_vhci_libusb.Device.{Reply}
use usb_vhci_libusb.Device.Port.{IocPortStat}
use usb_vhci_libusb.Outcome.{done, done-state, done-value}
use usb_vhci_libusb.Hcd.{next_work, remove}
use usb_vhci_libusb.Hcd.Owned.{count, pending}
use usb_vhci_libusb.Hcd.Next.{Hands, is_nonempty, next_work-Hands}
use usb_vhci_libusb.LocalHcd.{LocalHcd, Memory, IsFresh, local}
use usb_vhci_libusb.LocalHcd.Laws.{local-IsVirtual}
use usb_vhci_libusb.ExampleCpp.{handle, Pc, top, asleep, ready, holds, look, after}
use usb_vhci_libusb.ExampleCpp.Callbacks.{tells}
use usb_vhci_libusb.ExampleCpp.Handles.{Handles, handle-Handles}
use usb_vhci_libusb.ExampleCpp.System.{System, look_step, busy, At, Inv}

module _ (e : Errno) (k : Header) where
  pub looks-Inv : (s : System) → s.pc ≡ top → Inv k s → Inv k (look_step s)
  unfolding look
  looks-Inv s at inv = record {
    owns = inv.owns;
    sound = inv.sound;
    registered = inv.registered;
    here = place;
  }
    where
      known :
          (s.hcd.processing ≡ []) × (s.cont ≡ false → busy s.hcd ≡ true → s.shared.has_work ≡ true)
      known = subst (λ (p : Pc). At p s) at inv.here

      idle : s.cont ≡ false → s.shared.has_work ≡ false → busy s.hcd ≡ false
      idle first none_told = elim (Bool-cases (busy s.hcd)) [
        | inl work ↦ let told = known.1 first work in ground arith
        | inr nothing ↦ nothing
      ]

      place : At (look_step s).pc (look_step s)
      place = elim (Bool-cases s.cont) [
        | inl again ↦ rw again known.0
        | inr first ↦ elim (Bool-cases s.shared.has_work) [
          | inl told ↦ rw (first, told) known.0
          | inr untold ↦ rw (first, untold) (known.0, λ fresh. (refl, idle first untold))
        ]
      ]

  pub wakes-Inv : (s : System) → s.pc ≡ asleep → Inv k s → Inv k (record s { pc = ready })
  wakes-Inv s at inv = record {
    owns = inv.owns;
    sound = inv.sound;
    registered = inv.registered;
    here = (subst (λ (p : Pc). At p s) at inv.here).0;
  }

  -- Nothing waits in an empty inbox.
  idle_inbox : (h : LocalHcd) → is_nonempty h.inbox ≡ false → busy h ≡ false
  idle_inbox h e = by_inbox h.inbox e
    where
      by_inbox : (xs : List ℕ) → is_nonempty xs ≡ false → is_nonempty (pending h.store xs) ≡ false
      by_inbox [] e = refl
      by_inbox (x ∷ xs) e = absurd (ground (arith, e))

  pub takes-Inv :
      (s : System) (r : Option ℕ × Bool) (t : LocalHcd)
      → s.pc ≡ ready
      → next_work true s.hcd ≡ done r t
      → Inv k s
      → Inv k (record s { hcd = t; cont = r.1; pc = after r.0 })
  takes-Inv s r t at runs inv =
      let (r', t', calls, hands) = next_work-Hands s.hcd inv.owns in
      let same_value : r' ≡ r = done-value r' r t' t (sym calls ∙ runs) in
      let same_state : t' ≡ t = done-state r' r t' t (sym calls ∙ runs) in
      taken (
        subst (λ (x : Option ℕ × Bool). Hands s.hcd x t) same_value
          (subst (Hands s.hcd r') same_state hands))
    where
      empty : s.hcd.processing ≡ []
      empty = subst (λ (p : Pc). At p s) at inv.here

      place :
          (x : Option ℕ)
          → r.0 ≡ x
          → Hands s.hcd r t
          → At (after x) (record s { hcd = t; cont = r.1; pc = after r.0 })
      place none is_x hands = (
        hands.handed ∙ rw (is_x, empty) refl,
        λ last busy_now. absurd (ground (arith, idle_inbox t (sym hands.more ∙ last))),
      )
      place (some w) is_x hands = (
        hands.handed ∙ rw (is_x, empty) refl,
        λ last busy_now. absurd (ground (arith, idle_inbox t (sym hands.more ∙ last))),
      )

      taken : Hands s.hcd r t → Inv k (record s { hcd = t; cont = r.1; pc = after r.0 })
      taken hands = record {
        owns = hands.owns;
        sound = λ p o live. inv.sound p o (sym (hands.same_objects p (rw live refl)) ∙ live);
        registered = ap tells hands.same_callbacks ∙ inv.registered;
        here = place r.0 refl hands;
      }

  pub completes-Inv :
      (s : System) (w : ℕ) (m : Memory) (reply : IocPortStat → Reply (Unit {0})) (t : LocalHcd)
      → s.pc ≡ holds w
      → IsFresh m
      → m.malloc ≡ true
      → handle e k reply (local e k m) w s.hcd ≡ done true t
      → Inv k s
      → Inv k (record s { hcd = t; pc = top })
  completes-Inv s w m reply t at fresh mem runs inv = record {
    owns = left.owns;
    sound = left.sound;
    registered = ap tells left.same_callbacks ∙ inv.registered;
    here = (
      left.rest ∙ rw known.0 (alone w),
      λ last busy_now. known.1 last (sym (ap is_nonempty left.same_pending) ∙ busy_now),
    );
  }
    where
      known :
          (s.hcd.processing ≡ w ∷ [])
          × (s.cont ≡ false → busy s.hcd ≡ true → s.shared.has_work ≡ true)
      known = subst (λ (p : Pc). At p s) at inv.here

      there : 0 < count w s.hcd.processing
      there = rw known.0 (ground (arith, ==_refl w))

      left : Handles e k reply w s.hcd t
      left =
          handle-Handles e k reply (local e k m) w s.hcd t (local-IsVirtual e k m fresh mem)
            inv.owns inv.sound there runs

      alone : (w : ℕ) → remove w (w ∷ []) ≡ []
      alone w = unfold remove in ground (arith, ==_refl w)
