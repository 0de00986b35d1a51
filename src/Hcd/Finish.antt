-- ===== src/Hcd/Finish.antt =====
-- `finish_work` and the destructor release what the controller holds.
use usb_vhci_libusb.Prelude.{
  ℕ, ◌+◌, ◌<◌, ◌≤◌, ◌≡◌, refl, ap, true, arith, ==_refl, Option-cases, none, some, List, [], ◌∷◌,
  inl, inr, is_some,
}
use usb_vhci_libusb.Work.{Work, Store, put, held}
use usb_vhci_libusb.Outcome.{done, ◌>>=◌, ◌>>◌}
use usb_vhci_libusb.Hcd.{Hcd, Virtual, remove, finish_work, delete_work, delete_all, destroy}
use usb_vhci_libusb.Hcd.Owned.{count, Owns, count-remove, held-le-one}
use usb_vhci_libusb.Hcd.Laws.{IsVirtual, Frames, AllSound}

module _ {D : Type 0} where
  -- What finishing the work `w` does, from `h` to `t`.
  pub record Finishes (v : Virtual D) (w : ℕ) (h t : Hcd D) : Type 0 where
    pub owns : Owns t
    pub same_inbox : t.inbox ≡ h.inbox
    pub rest : t.processing ≡ remove w h.processing
    pub store_after : t.store ≡ put h.store w none
    pub same_callbacks : t.work_enqueued_callbacks ≡ h.work_enqueued_callbacks
    pub gives_back : (u : Hcd D) × (v.finishing_work w h ≡ done tt u) × (t.derived ≡ u.derived)

  delete_live :
      (w : ℕ) (h : Hcd D)
      → is_some (h.store w) ≡ true
      → delete_work w h ≡ done tt (record h { store = put h.store w none })
  unfolding delete_work
  delete_live w h live = elim (Option-cases (h.store w)) [
    | inl none_at ↦ absurd (ground arith)
    | inr (o, s) ↦ rw (s, delete_work)
  ]

  object_at :
      (w : ℕ) (h : Hcd D) → Owns h → 0 < count w h.processing → (o : Work) × (h.store w ≡ some o)
  object_at w h own inside = elim (Option-cases (h.store w)) [
    | inl gone ↦ absurd (ground (arith, own w))
    | inr found ↦ found
  ]

  finished : ℕ → Hcd D → Hcd D
  finished w h = record h { processing = remove w h.processing; store = put h.store w none }

  finished-Finishes :
      (v : Virtual D) (w : ℕ) (h u : Hcd D)
      → v.finishing_work w h ≡ done tt u
      → Frames h u
      → Owns h
      → 0 < count w h.processing
      → Finishes v w h (finished w u)
  unfolding finished
  finished-Finishes v w h u runs f own inside = record {
    owns = λ p.
        rw (f.same_inbox, f.same_processing, f.same_store)
          (ground (arith, own p, own w, count-remove p w h.processing, held-le-one (h.store w)));
    same_inbox = f.same_inbox;
    rest = ap (remove w) f.same_processing;
    store_after = ap (λ (st : Store). put st w none) f.same_store;
    same_callbacks = f.same_callbacks;
    gives_back = (u, runs, refl);
  }

  finish_runs :
      (v : Virtual D) (w : ℕ) (h u : Hcd D) (o : Work)
      → h.store w ≡ some o
      → v.finishing_work w h ≡ done tt u
      → Frames h u
      → finish_work v w h ≡ done tt (finished w u)
  unfolding finish_work finished
  finish_runs v w h u o s runs f =
      rw (runs, finish_work, ◌>>=◌, ◌>>◌)
        (delete_live w (record u { processing = remove w u.processing })
          (rw (f.same_store, s) refl))

  -- Given the laws of the virtual methods, finishing a work that is in processing returns: it takes
  -- the work out of `processing`, frees it and no other object, leaves the inbox and the callbacks,
  -- and keeps the ownership; the derived members are those that `finishing_work` leaves.
  pub finish_work-Finishes :
      (Sound : Work → Type 0) (v : Virtual D) (w : ℕ) (h : Hcd D)
      → IsVirtual Sound v
      → Owns h
      → AllSound Sound h
      → 0 < count w h.processing
      → (t : Hcd D) × (finish_work v w h ≡ done tt t) × Finishes v w h t
  finish_work-Finishes Sound v w h laws own sound inside =
      let (o, s) = object_at w h own inside in
      let (u, runs, f) = laws.finishing w h o s (sound w o s) in
      (finished w u, finish_runs v w h u o s runs f, finished-Finishes v w h u runs f own inside)

  -- Each address of the list is deleted once.
  delete_all-held :
      (xs : List ℕ) (h : Hcd D)
      → ((p : ℕ) → count p xs ≤ held (h.store p))
      → (t : Hcd D) × (delete_all xs h ≡ done tt t)
        × (t.inbox ≡ h.inbox)
        × (t.processing ≡ h.processing)
        × ((p : ℕ) → held (t.store p) + count p xs ≡ held (h.store p))
  unfolding delete_all
  delete_all-held [] h fits = (h, refl, refl, refl, λ p. omega arith)
  delete_all-held (w ∷ rest) h fits =
      let freed : Hcd D = record h { store = put h.store w none } in
      let (t, runs, i, p, left) =
        delete_all-held rest freed
          (λ p. ground (arith, fits p, fits w, held-le-one (h.store w), ==_refl w)) in
      (
        t,
        rw (delete_live w h live, ◌>>=◌, ◌>>◌, delete_all) runs,
        i,
        p,
        λ p. ground (arith, left p, fits w, fits p, held-le-one (h.store w), ==_refl w),
      )
    where
      live : is_some (h.store w) ≡ true
      live = ground (arith, fits w, ==_refl w)

  -- The destructor deletes every object once: on every state whose objects are owned it returns,
  -- and no object is left allocated.
  pub destroy_frees :
      (h : Hcd D) → Owns h → (t : Hcd D) × (destroy h ≡ done tt t) × ((p : ℕ) → t.store p ≡ none)
  unfolding destroy
  destroy_frees h own =
      let (u, runs, i, p, left) = delete_all-held h.inbox h (λ p. ground (arith, own p)) in
      let (t, runs', i', p', left') =
        delete_all-held h.processing u (λ p. ground (arith, own p, left p)) in
      (t, rw (runs, ◌>>=◌, ◌>>◌, destroy) runs', λ p. ground (arith, own p, left p, left' p))
