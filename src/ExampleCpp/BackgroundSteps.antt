-- ===== src/ExampleCpp/BackgroundSteps.antt =====
-- The steps of the background thread keep the invariant.
use usb_vhci_libusb.Prelude.{
  ℕ, ◌≡◌, refl, sym, subst, ap, ◌∙◌, Bool, true, false, arith, none, List, [], ◌∷◌, Bool-cases, inl,
  inr,
}
use usb_vhci_libusb.Errno.{Errno}
use usb_vhci_libusb.Kernel.{Header}
use usb_vhci_libusb.Work.{Work}
use usb_vhci_libusb.Outcome.{done, ◌>>◌, done-state, done-value, throws-done}
use usb_vhci_libusb.Hcd.{Callback, enqueue_work, on_work_enqueued, cancel_process_urb_work, remove}
use usb_vhci_libusb.Hcd.Owned.{pending}
use usb_vhci_libusb.Hcd.Laws.{IsVirtual}
use usb_vhci_libusb.Hcd.Next.{is_nonempty}
use usb_vhci_libusb.Hcd.Enqueue.{allocated, queued, enqueue_runs, queued-Grows}
use usb_vhci_libusb.Hcd.Cancel.{cancel_process_urb_work-cases}
use usb_vhci_libusb.Hcd.Session.{IsWell, Step-IsWell, cancel_urb}
use usb_vhci_libusb.LocalHcd.{Local, LocalHcd, Memory, IsFresh, local}
use usb_vhci_libusb.LocalHcd.Laws.{Sound, local-IsVirtual}
use usb_vhci_libusb.ExampleCpp.Callbacks.{
  call_all, since, tells, since-append, call_all-tells, call_all-keeps, call_all-signals,
}
use usb_vhci_libusb.ExampleCpp.{Pc, top, asleep, ready, holds, is_asleep}
use usb_vhci_libusb.ExampleCpp.System.{System, busy, At, Inv}

module _ (e : Errno) (k : Header) where
  pub queues-Inv :
      (s : System) (q : ℕ) (o : Work) (t : LocalHcd) (d : Local)
      → s.hcd.store q ≡ none
      → Sound k o
      → (enqueue_work true q >> on_work_enqueued) (allocated q o s.hcd) ≡ done tt t
      → Inv k s
      → Inv k (record s {
        hcd = record t { derived = d };
        shared = call_all (is_asleep s.pc) (since s.hcd.notified t.notified) s.shared;
      })
  queues-Inv s q o t d fresh good runs inv =
      grown (done-state tt tt (queued q o s.hcd) t (sym (enqueue_runs q o s.hcd) ∙ runs))
    where
      calls : List Callback
      calls = since s.hcd.notified (queued q o s.hcd).notified

      among : tells calls ≡ true
      among = rw (since-append s.hcd.notified s.hcd.work_enqueued_callbacks) inv.registered

      told : (call_all (is_asleep s.pc) calls s.shared).has_work ≡ true
      told = call_all-tells (is_asleep s.pc) calls s.shared among

      signals :
          (s.shared.signalled ≡ false → s.shared.waiting_for_work ≡ true)
          → (call_all true calls s.shared).signalled ≡ true
      signals waits = elim (Bool-cases s.shared.signalled) [
        | inl signalled ↦ call_all-keeps true calls s.shared signalled
        | inr unsignalled ↦ call_all-signals calls s.shared among (waits unsignalled)
      ]

      place :
          (p : Pc)
          → s.pc ≡ p
          → At p s
          → At p (record s {
            hcd = record (queued q o s.hcd) { derived = d };
            shared = call_all (is_asleep s.pc) calls s.shared;
          })
      place top e at = (at.0, λ last busy_now. told)
      place asleep e at = rw e (
        at.0,
        λ unsignalled.
            let signalled = signals (λ before. (at.1 before).0) in
            absurd (ground (arith, unsignalled, signalled)),
      )
      place ready e at = at
      place (holds w) e at = (at.0, λ last busy_now. told)

      grown :
          queued q o s.hcd ≡ t
          → Inv k (record s {
            hcd = record t { derived = d };
            shared = call_all (is_asleep s.pc) (since s.hcd.notified t.notified) s.shared;
          })
      grown is_t =
          let new = queued-Grows (Sound k) q o s.hcd fresh inv.owns inv.sound good in
          subst
            (λ (h : LocalHcd). Inv k (record s {
              hcd = record h { derived = d };
              shared = call_all (is_asleep s.pc) (since s.hcd.notified h.notified) s.shared;
            }))
            is_t
            (record {
              owns = new.owns;
              sound = new.sound;
              registered = inv.registered;
              here = place s.pc refl inv.here;
            })

  remove-nonempty :
      (w : ℕ) (xs : List ℕ) → is_nonempty xs ≡ false → is_nonempty (remove w xs) ≡ false
  unfolding remove
  remove-nonempty w [] e = refl
  remove-nonempty w (x ∷ xs) e = absurd (ground (arith, e))

  pub withdraws-Inv :
      (s : System) (m : Memory) (number : ℕ) (t : LocalHcd)
      → IsFresh m
      → m.malloc ≡ true
      → cancel_process_urb_work (local e k m) number s.hcd ≡ done false t
      → Inv k s
      → Inv k (record s { hcd = t })
  withdraws-Inv s m number t fresh mem runs inv = record {
    owns = well.owns;
    sound = well.sound;
    registered = ap tells callbacks_same ∙ inv.registered;
    here = place s.pc inv.here;
  }
    where
      laws : IsVirtual (Sound k) (local e k m)
      laws = local-IsVirtual e k m fresh mem

      well : IsWell (Sound k) (IsVirtual (Sound k)) t
      well =
          Step-IsWell (Sound k) (IsVirtual (Sound k)) (λ v l. l)
            (cancel_urb (local e k m) number false laws runs)
            (record { owns = inv.owns; sound = inv.sound })

      quiet : (t.processing ≡ s.hcd.processing) × (busy s.hcd ≡ false → busy t ≡ false)
      quiet =
          elim (cancel_process_urb_work-cases (Sound k) (local e k m) number s.hcd laws inv.owns
            inv.sound) [
              | inl (w, found, (u, calls, c)) ↦
                  subst
                    (λ (x : LocalHcd).
                      (x.processing ≡ s.hcd.processing) × (busy s.hcd ≡ false → busy x ≡ false))
                    (done-state false false u t (sym calls ∙ runs))
                    (
                      c.same_processing,
                      λ idle.
                          ap is_nonempty c.withdrawn
                          ∙ remove-nonempty w (pending s.hcd.store s.hcd.inbox) idle,
                    )
              | inr (inl (w, absent, found, (u, grown, how))) ↦ elim how [
                | inl (call, calls) ↦
                    let wrong : ◌≡◌ {A = Bool} true false =
                      done-value true false u t (sym calls ∙ runs) in
                    absurd (ground (arith, wrong))
                | inr (x, call, calls) ↦ absurd (throws-done false t u x (sym calls ∙ runs))
              ]
              | inr (inr (absent, nowhere, calls)) ↦
                  subst
                    (λ (x : LocalHcd).
                      (x.processing ≡ s.hcd.processing) × (busy s.hcd ≡ false → busy x ≡ false))
                    (done-state false false s.hcd t (sym calls ∙ runs)) (refl, λ idle. idle)
            ]

      callbacks_same : t.work_enqueued_callbacks ≡ s.hcd.work_enqueued_callbacks
      callbacks_same =
          elim (cancel_process_urb_work-cases (Sound k) (local e k m) number s.hcd laws inv.owns
            inv.sound) [
              | inl (w, found, (u, calls, c)) ↦
                  ap (λ (x : LocalHcd). x.work_enqueued_callbacks)
                    (done-state false false t u (sym runs ∙ calls))
                  ∙ c.same_callbacks
              | inr (inl (w, absent, found, (u, grown, how))) ↦ elim how [
                | inl (call, calls) ↦
                    let wrong : ◌≡◌ {A = Bool} true false =
                      done-value true false u t (sym calls ∙ runs) in
                    absurd (ground (arith, wrong))
                | inr (x, call, calls) ↦ absurd (throws-done false t u x (sym calls ∙ runs))
              ]
              | inr (inr (absent, nowhere, calls)) ↦
                  ap (λ (x : LocalHcd). x.work_enqueued_callbacks)
                    (done-state false false t s.hcd (sym runs ∙ calls))
            ]

      still :
          (s.cont ≡ false → busy s.hcd ≡ true → s.shared.has_work ≡ true)
          → s.cont ≡ false
          → busy t ≡ true
          → s.shared.has_work ≡ true
      still known last busy_now = elim (Bool-cases (busy s.hcd)) [
        | inl work ↦ known last work
        | inr idle ↦ let none_now = quiet.1 idle in absurd (ground (arith, busy_now, none_now))
      ]

      place : (p : Pc) → At p s → At p (record s { hcd = t })
      place top at = (quiet.0 ∙ at.0, still at.1)
      place asleep at =
          (quiet.0 ∙ at.0, λ unsignalled. ((at.1 unsignalled).0, quiet.1 (at.1 unsignalled).1))
      place ready at = quiet.0 ∙ at
      place (holds w) at = (quiet.0 ∙ at.0, still at.1)
