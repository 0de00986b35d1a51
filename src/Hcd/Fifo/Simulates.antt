-- ===== src/Hcd/Fifo/Simulates.antt =====
-- The controller implements the queue.
use usb_vhci_libusb.Prelude.{
  ℕ, ◌+◌, ◌<◌, ◌≤◌, ◌≡◌, refl, sym, subst, ap, ◌∙◌, Bool, true, arith, ==_refl, Option, none, List,
  [], ◌∷◌, ◌++◌, is_some,
}
use usb_vhci_libusb.Work.{Work}
use usb_vhci_libusb.Outcome.{Outcome, done, ◌>>◌, done-state, done-value}
use usb_vhci_libusb.Hcd.{Hcd, Virtual, enqueue_work, on_work_enqueued, next_work}
use usb_vhci_libusb.Hcd.Owned.{
  count, Owns, count-append, pending, held-le-one, pending-append, count-pending, pending_same,
}
use usb_vhci_libusb.Hcd.Laws.{Grows}
use usb_vhci_libusb.Hcd.Next.{first, others, singleton, next_work-Hands}
use usb_vhci_libusb.Hcd.Enqueue.{allocated, queued, enqueue_runs, queued-Grows}
use usb_vhci_libusb.Hcd.Session.{IsWell}
use usb_vhci_libusb.Hcd.Fifo.{
  Fifo, Event, submitted, handed, canceled, New, append, Behaves, submits, hands, view, accepted,
}

pub Fifo_eq : (a b : Fifo) → a.waiting ≡ b.waiting → a.in_hand ≡ b.in_hand → a ≡ b
Fifo_eq a b p q =
    ap (λ (ws : List ℕ). record a { waiting = ws }) p
    ∙ ap (λ (ws : List ℕ). record b { in_hand = ws }) q

module _ {D : Type 0} where
  module _ (h t : Hcd D) (qs : List ℕ) (own : Owns h) (owned : Owns t)
      (inbox : t.inbox ≡ h.inbox ++ qs) (processing : t.processing ≡ h.processing)
      (objects : (p : ℕ) → is_some (h.store p) ≡ true → t.store p ≡ h.store p) where
    extends-New : New (pending t.store qs) (view h)
    extends-New p inside =
        let here_once : count p h.inbox + count p qs + count p h.processing ≤ 1 = omega (
          arith,
          count-append p h.inbox qs,
          ap (count p) inbox,
          ap (count p) processing,
          owned p,
          held-le-one (t.store p),
        ) in
        (
          omega (arith, inside, count-pending p t.store qs, here_once),
          omega (
            arith,
            inside,
            count-pending p t.store qs,
            count-pending p h.store h.inbox,
            here_once,
          ),
        )

    extends_view : view t ≡ append (pending t.store qs) (view h)
    extends_view =
        Fifo_eq (view t) (append (pending t.store qs) (view h))
          (ap (pending t.store) inbox
            ∙ pending-append t.store h.inbox qs
            ∙ ap (λ (ws : List ℕ). ws ++ pending t.store qs)
                (pending_same h.store t.store h.inbox (λ p inside. objects p (live p inside))))
          processing
      where
        live : (p : ℕ) → 0 < count p h.inbox → is_some (h.store p) ≡ true
        live p inside = ground (arith, own p)

  -- What a call leaves, as the caller of another one that ends alike sees it.
  pub same_done :
      (a : Fifo) (b b' : Bool) (u t : Hcd D)
      → ◌≡◌ {A = Outcome (Hcd D) Bool} (done b u) (done b' t)
      → Behaves a (canceled b) (view u)
      → Behaves a (canceled b') (view t)
  same_done a b b' u t e behaves =
      subst (λ (x : Bool). Behaves a (canceled x) (view t)) (done-value b b' u t e)
        (subst (λ (x : Hcd D). Behaves a (canceled b) (view x)) (done-state b b' u t e) behaves)

  module _ {Sound : Work → Type 0} {Methods : Virtual D → Type 0} (h t : Hcd D)
      (well : IsWell Sound Methods h) where
    abbrev Comes : Event → Hcd D → Type 0
    Comes e u = Behaves (view h) e (view u)

    pub Grows-view :
        Grows Sound h t → (ws : List ℕ) × New ws (view h) × (view t ≡ append ws (view h))
    Grows-view g = (
      pending t.store g.added.0,
      extends-New h t g.added.0 well.owns g.owns g.added.1 g.same_processing g.same_objects,
      extends_view h t g.added.0 well.owns g.owns g.added.1 g.same_processing g.same_objects,
    )

    pub queue-Behaves :
        (q : ℕ) (o : Work)
        → h.store q ≡ none
        → Sound o
        → (enqueue_work true q >> on_work_enqueued) (allocated q o h) ≡ done tt t
        → Comes (submitted (accepted q o)) t
    queue-Behaves q o fresh good runs =
        subst (Comes (submitted (accepted q o)))
          (done-state tt tt u t (sym (enqueue_runs q o h) ∙ runs))
          (subst (λ (ws : List ℕ). Comes (submitted ws) u) taken
            (subst (Behaves (view h) (submitted (pending u.store (q ∷ []))))
              (sym (extends_view h u (q ∷ []) well.owns g.owns refl refl g.same_objects))
              (submits (pending u.store (q ∷ []))
                (extends-New h u (q ∷ []) well.owns g.owns refl refl g.same_objects))))
      where
        u : Hcd D
        u = queued q o h

        g : Grows Sound h u
        g = queued-Grows Sound q o h fresh well.owns well.sound good

        taken : pending u.store (q ∷ []) ≡ accepted q o
        taken = ground (arith, ==_refl q)

    pub hand-Behaves : (r : Option ℕ × Bool) → next_work true h ≡ done r t → Comes (handed r.0) t
    hand-Behaves r runs =
        let (r', u, calls, it) = next_work-Hands h well.owns in
        let e = sym calls ∙ runs in
        let result : first (view h).waiting ≡ r.0 =
          sym it.oldest ∙ ap (λ (x : Option ℕ × Bool). x.0) (done-value r' r u t e) in
        let seen : view u ≡ record {
          waiting = others (view h).waiting;
          in_hand = h.processing ++ singleton (first (view h).waiting);
        } =
          Fifo_eq _ _ it.remaining
            (it.handed ∙ ap (λ (x : Option ℕ). h.processing ++ singleton x) it.oldest) in
        subst (Comes (handed r.0)) (done-state r' r u t e) (
          subst (λ (x : Option ℕ). Comes (handed x) u) result
            (subst (Behaves (view h) (handed (first (view h).waiting))) (sym seen) hands))
