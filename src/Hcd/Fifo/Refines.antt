-- ===== src/Hcd/Fifo/Refines.antt =====
-- Every run of the controller is a run of the queue.
use usb_vhci_libusb.Prelude.{
  ℕ, ◌<◌, ◌≡◌, refl, sym, subst, ap, ◌∙◌, Bool, true, false, ◌==◌, Bool-cases, arith, none, some,
  [], inl, inr,
}
use mathlib.Core.Option.{some-injective}
use usb_vhci_libusb.Work.{Work, Store, put}
use usb_vhci_libusb.Outcome.{
  done, throws, Exception, bad_alloc, done-state, throws-state, throws-done,
}
use usb_vhci_libusb.Hcd.{
  Hcd, Virtual, construct, remove, finish_work, cancel_process_urb_work, add_work_enqueued_callback,
  remove_work_enqueued_callback, enqueue_work,
}
use usb_vhci_libusb.Hcd.Owned.{count, pending, pending_same, pending-put, held-le-one}
use usb_vhci_libusb.Hcd.Laws.{IsVirtual}
use usb_vhci_libusb.Hcd.Next.{next_work_returns}
use usb_vhci_libusb.Hcd.Enqueue.{allocated}
use usb_vhci_libusb.Hcd.Finish.{finish_work-Finishes}
use usb_vhci_libusb.Hcd.Cancel.{cancel_process_urb_work-cases}
use usb_vhci_libusb.Hcd.Session.{
  Step, Reach, queue, queue_fails, add_callback_fails, put_back, hand, finish, cancel_urb,
  cancel_throws, add_callback, remove_callback, here, next, IsWell, Reach-IsWell, construct-IsWell,
}
use usb_vhci_libusb.Hcd.Fifo.{
  Fifo, completed, canceled, cancel_failed, queue_failed, refuses, callbacks_changed, Behaves,
  completes, withdraws, finds_none, reports, fails, changes_callbacks, Runs, starts, continues,
  view, event, events,
}
use usb_vhci_libusb.Hcd.Fifo.Simulates.{Fifo_eq, same_done, Grows-view, queue-Behaves, hand-Behaves}

construct-view :
    {D : Type 0} (ports : ℕ) (d : D) (h : Hcd D)
    → construct ports d ≡ some h
    → view h ≡ record { waiting = []; in_hand = [] }
unfolding construct
construct-view {D = D} ports d h made = elim (Bool-cases (ports == 0)) [
  | inl z ↦ absurd (ground (arith, rw z at made))
  | inr n ↦ sym (ap (λ (x : Hcd D). view x) (some-injective _ _ (rw n at made)))
]

module _ {D : Type 0} {Sound : Work → Type 0} {Methods : Virtual D → Type 0} where
  module _ (h t : Hcd D) (v : Virtual D) (laws : IsVirtual Sound v)
      (well : IsWell Sound Methods h) where
    finish-Behaves :
        (w : ℕ)
        → 0 < count w h.processing
        → finish_work v w h ≡ done tt t
        → Behaves (view h) (completed w) (view t)
    finish-Behaves w inside runs =
        let (u, calls, f) = finish_work-Finishes Sound v w h laws well.owns well.sound inside in
        let elsewhere : count w h.inbox ≡ 0 =
          omega (arith, inside, well.owns w, held-le-one (h.store w)) in
        let kept : pending u.store u.inbox ≡ pending h.store h.inbox =
          ap (pending u.store) f.same_inbox
          ∙ ap (λ (st : Store). pending st h.inbox) f.store_after
          ∙ pending-put h.store w none h.inbox elsewhere in
        let seen : view u ≡ record (view h) { in_hand = remove w h.processing } =
          Fifo_eq _ _ kept f.rest in
        subst (λ (x : Hcd D). Behaves (view h) (completed w) (view x))
          (done-state tt tt u t (sym calls ∙ runs))
          (subst (Behaves (view h) (completed w)) (sym seen) (completes w inside))

    -- A cancelation that returns.
    cancel-Behaves :
        (handle : ℕ) (b : Bool)
        → cancel_process_urb_work v handle h ≡ done b t
        → Behaves (view h) (canceled b) (view t)
    cancel-Behaves handle b runs =
        elim (cancel_process_urb_work-cases Sound v handle h laws well.owns well.sound) [
          | inl (w, found, (u, calls, c)) ↦ same_done (view h) false b u t (sym calls ∙ runs) (
              subst (Behaves (view h) (canceled false))
                (sym (Fifo_eq (view u) _ c.withdrawn c.same_processing)) (withdraws w))
          | inr (inl (w, absent, found, (u, grown, how))) ↦ elim how [
            | inl (call, calls) ↦
                let (ws, new, seen) = Grows-view h u well grown in
                same_done (view h) true b u t (sym calls ∙ runs) (
                  subst (Behaves (view h) (canceled true)) (sym seen)
                    (reports w ws found.inside new))
            | inr (e, call, calls) ↦ absurd (throws-done b t u e (sym calls ∙ runs))
          ]
          | inr (inr (absent, nowhere, calls)) ↦
              same_done (view h) false b h t (sym calls ∙ runs) finds_none
        ]

    cancel_fails-Behaves :
        (handle : ℕ) (e : Exception)
        → cancel_process_urb_work v handle h ≡ throws e t
        → Behaves (view h) cancel_failed (view t)
    cancel_fails-Behaves handle e runs =
        elim (cancel_process_urb_work-cases Sound v handle h laws well.owns well.sound) [
          | inl (w, found, (u, calls, c)) ↦ absurd (throws-done _ _ _ _ (sym runs ∙ calls))
          | inr (inl (w, absent, found, (u, grown, how))) ↦ elim how [
            | inl (call, calls) ↦ absurd (throws-done _ _ _ _ (sym runs ∙ calls))
            | inr (e', call, calls) ↦
                let (ws, new, seen) = Grows-view h u well grown in
                subst (λ (x : Hcd D). Behaves (view h) cancel_failed (view x))
                  (throws-state e' e u t (sym calls ∙ runs))
                  (subst (Behaves (view h) cancel_failed) (sym seen) (fails w ws found.inside new))
          ]
          | inr (inr (absent, nowhere, calls)) ↦ absurd (throws-done _ _ _ _ (sym runs ∙ calls))
        ]

  Step-Behaves :
      {h t : Hcd D}
      → ((v : Virtual D) → Methods v → IsVirtual Sound v)
      → IsWell Sound Methods h
      → (st : Step Sound Methods h t) → Behaves (view h) (event st) (view t)
  unfolding enqueue_work add_work_enqueued_callback remove_work_enqueued_callback
  Step-Behaves {h} {t} laws well (queue q o fresh good runs) =
      queue-Behaves h t well q o fresh good runs
  Step-Behaves {h} laws well (queue_fails {t = t} q o x fresh runs) =
      subst
        (λ (u : Hcd D).
          Behaves (view h) queue_failed (view (record u { store = put u.store q none })))
        (throws-state bad_alloc x (allocated q o h) t runs)
        (subst (Behaves (view h) queue_failed)
          (Fifo_eq (view h) (view (record h { store = put (put h.store q (some o)) q none }))
            (sym (
              pending_same h.store (put (put h.store q (some o)) q none) h.inbox
                (λ p inside. put_back h.store q (some o) p fresh)))
            refl)
          refuses)
  Step-Behaves {h} {t} laws well (hand fits r runs) =
      hand-Behaves h t well r (next_work_returns fits h t r runs)
  Step-Behaves {h} {t} laws well (finish v w meets inside runs) =
      finish-Behaves h t v (laws v meets) well w inside runs
  Step-Behaves {h} {t} laws well (cancel_urb v handle b meets runs) =
      cancel-Behaves h t v (laws v meets) well handle b runs
  Step-Behaves {h} {t} laws well (cancel_throws v handle e meets runs) =
      cancel_fails-Behaves h t v (laws v meets) well handle e runs
  Step-Behaves {h} {t} laws well (add_callback true c runs) =
      subst (λ (x : Hcd D). Behaves (view h) callbacks_changed (view x)) (done-state tt tt _ t runs)
        changes_callbacks
  Step-Behaves laws well (add_callback false c runs) = absurd (throws-done _ _ _ _ runs)
  Step-Behaves {h} {t} laws well (add_callback_fails c x runs) =
      subst (λ (u : Hcd D). Behaves (view h) callbacks_changed (view u))
        (throws-state bad_alloc x h t runs) changes_callbacks
  Step-Behaves laws well (remove_callback h c) = changes_callbacks

  Reach-Runs :
      {h t : Hcd D}
      → ((v : Virtual D) → Methods v → IsVirtual Sound v)
      → IsWell Sound Methods h
      → (r : Reach Sound Methods h t) → Runs (view h) (events r) (view t)
  Reach-Runs laws well here = starts
  Reach-Runs laws well (next r st) =
      continues (Reach-Runs laws well r)
        (Step-Behaves laws (Reach-IsWell Sound Methods laws well r) st)

  -- The controller implements a first-in first-out queue. Whatever calls are made from its
  -- construction on, by virtual methods that keep their laws, if no call of `next_work` throws: what
  -- the callers see is a run of the queue from the empty one. Each work that is queued is new to it,
  -- a work that cannot be queued changes nothing, `next_work` hands out the work that waits longest,
  -- finishing takes a work out of the client's hand, a cancelation withdraws a waiting work, reports
  -- one in hand by new works or changes nothing, and the state afterwards stands for the queue's.
  pub session_refines :
      (ports : ℕ) (d : D) (h t : Hcd D)
      → ((v : Virtual D) → Methods v → IsVirtual Sound v)
      → construct ports d ≡ some h
      → (reached : Reach Sound Methods h t)
      → Runs (record { waiting = []; in_hand = [] }) (events reached) (view t)
  session_refines ports d h t laws made reached =
      subst (λ (a : Fifo). Runs a (events reached) (view t)) (construct-view ports d h made)
        (Reach-Runs laws (construct-IsWell Sound Methods ports d h made) reached)
