-- ===== src/Hcd/Cancel.antt =====
-- `cancel_process_urb_work` on each of its branches.
use usb_vhci_libusb.Prelude.{
  ℕ, ◌<◌, ◌≤◌, ◌≡◌, refl, ◌∙◌, ◌⊎◌, true, false, arith, ==_refl, Bool-cases, Option-cases, none,
  some, List, [], ◌∷◌, inl, inr,
}
use usb_vhci_libusb.Work.{Work, Store, put, held, cancel}
use usb_vhci_libusb.Outcome.{done, throws, Exception, ◌>>=◌, ◌>>◌}
use usb_vhci_libusb.Hcd.{Hcd, Virtual, remove, is_urb, find_urb, cancel_at, cancel_process_urb_work}
use usb_vhci_libusb.Hcd.Owned.{count, Owns, pending}
use usb_vhci_libusb.Hcd.Laws.{IsVirtual, Grows, AllSound}

-- No `process_urb_work` for the handle stands in the list.
abbrev pub Absent : Store → ℕ → List ℕ → Type 0
Absent store handle [] = Unit {0}
Absent store handle (w ∷ rest) =
    ((o : Work) → store w ≡ some o → is_urb handle o ≡ false) × Absent store handle rest

-- The address stands in the list, for a `process_urb_work` for the handle.
pub record Found (store : Store) (handle : ℕ) (xs : List ℕ) (w : ℕ) : Type 0 where
  pub object : Work
  pub at_address : store w ≡ some object
  pub is_it : is_urb handle object ≡ true
  pub inside : 0 < count w xs

-- Over live addresses the search ends with an address that fits, or with none because none fits.
pub find_urb-total :
    (store : Store) (handle : ℕ) (xs : List ℕ)
    → ((p : ℕ) → count p xs ≤ held (store p))
    → ((w : ℕ) × (find_urb store handle xs ≡ some (some w)) × Found store handle xs w)
      ⊎ ((find_urb store handle xs ≡ some none) × Absent store handle xs)
unfolding find_urb
find_urb-total store handle [] live = inr (refl, tt)
find_urb-total store handle (x ∷ rest) live = elim (Option-cases (store x)) [
  | inl gone ↦ absurd (ground (arith, live x, ==_refl x))
  | inr (o, s) ↦ elim (Bool-cases (is_urb handle o)) [
    | inl it ↦ inl (
      x,
      rw (s, find_urb) (rw it),
      record { object = o; at_address = s; is_it = it; inside = ground (arith, ==_refl x) },
    )
    | inr other ↦ later o s other (find_urb-total store handle rest (λ p. ground (arith, live p)))
  ]
]
  where
    later :
        (o : Work)
        → store x ≡ some o
        → is_urb handle o ≡ false
        → ((w : ℕ) × (find_urb store handle rest ≡ some (some w)) × Found store handle rest w)
          ⊎ ((find_urb store handle rest ≡ some none) × Absent store handle rest)
        → ((w : ℕ) × (find_urb store handle (x ∷ rest) ≡ some (some w))
            × Found store handle (x ∷ rest) w)
          ⊎ ((find_urb store handle (x ∷ rest) ≡ some none) × Absent store handle (x ∷ rest))
    later o s other (inl (w, runs, f)) = inl (
      w,
      rw (s, find_urb) (rw other runs),
      record {
        object = f.object;
        at_address = f.at_address;
        is_it = f.is_it;
        inside = ground (arith, f.inside);
      },
    )
    later o s other (inr (runs, a)) =
        inr (rw (s, find_urb) (rw other runs), (λ q e. ground arith, a))

-- Marking a work as canceled takes it, and no other, from the works that can be handed out.
pub pending-cancel :
    (store : Store) (w : ℕ) (o : Work) (xs : List ℕ)
    → store w ≡ some o
    → pending (put store w (some (cancel o))) xs ≡ remove w (pending store xs)
unfolding remove
pending-cancel store w o [] s = refl
pending-cancel store w o (x ∷ xs) s = ground (arith, pending-cancel store w o xs)

module _ {D : Type 0} where
  -- What canceling the waiting work `w` does, from `h` to `t`: its object is marked, the virtual
  -- methods are called in turn, the last of them `finishing_work`, and nothing else changes.
  pub record Cancels (v : Virtual D) (w : ℕ) (h t : Hcd D) : Type 0 where
    pub owns : Owns t
    pub same_inbox : t.inbox ≡ h.inbox
    pub same_processing : t.processing ≡ h.processing
    pub marked : t.store ≡ (cancel_at w h).store
    pub same_callbacks : t.work_enqueued_callbacks ≡ h.work_enqueued_callbacks
    pub withdrawn : pending t.store t.inbox ≡ remove w (pending h.store h.inbox)
    pub gives_back :
        (u : Hcd D) × (v.canceling_work w false (cancel_at w h) ≡ done tt u)
        × (v.finishing_work w u ≡ done tt t)

  cancel_at-store :
      (h : Hcd D) (w : ℕ) (o : Work)
      → h.store w ≡ some o
      → (cancel_at w h).store w ≡ some (cancel o)
  cancel_at-store h w o s = rw s (ground (arith, ==_refl w))

  cancel_at-Owns :
      (h : Hcd D) (w : ℕ) (o : Work) → h.store w ≡ some o → Owns h → Owns (cancel_at w h)
  cancel_at-Owns h w o s own p = rw s (ground (arith, own p))

  -- The three branches, on what the searches find.
  cancels_waiting :
      (v : Virtual D) (handle : ℕ) (h u t : Hcd D) (w : ℕ)
      → find_urb h.store handle h.inbox ≡ some (some w)
      → v.canceling_work w false (cancel_at w h) ≡ done tt u
      → v.finishing_work w u ≡ done tt t
      → cancel_process_urb_work v handle h ≡ done false t
  unfolding cancel_process_urb_work
  cancels_waiting v handle h u t w runs first_call second_call =
      rw (runs, cancel_process_urb_work)
        (rw (first_call, ◌>>=◌, ◌>>◌) (rw (second_call, ◌>>=◌, ◌>>◌)))

  pub cancels_in_progress :
      (v : Virtual D) (handle : ℕ) (h t : Hcd D) (w : ℕ)
      → find_urb h.store handle h.inbox ≡ some none
      → find_urb h.store handle h.processing ≡ some (some w)
      → v.canceling_work w true h ≡ done tt t
      → cancel_process_urb_work v handle h ≡ done true t
  unfolding cancel_process_urb_work
  cancels_in_progress v handle h t w absent runs call =
      rw (absent, cancel_process_urb_work)
        (rw (runs, cancel_process_urb_work) (rw (call, ◌>>=◌, ◌>>◌)))

  pub cancels_throwing :
      (v : Virtual D) (handle : ℕ) (h t : Hcd D) (w : ℕ) (e : Exception)
      → find_urb h.store handle h.inbox ≡ some none
      → find_urb h.store handle h.processing ≡ some (some w)
      → v.canceling_work w true h ≡ throws e t
      → cancel_process_urb_work v handle h ≡ throws e t
  unfolding cancel_process_urb_work
  cancels_throwing v handle h t w e absent runs call =
      rw (absent, cancel_process_urb_work)
        (rw (runs, cancel_process_urb_work) (rw (call, ◌>>=◌, ◌>>◌)))

  pub cancels_unknown :
      (v : Virtual D) (handle : ℕ) (h : Hcd D)
      → find_urb h.store handle h.inbox ≡ some none
      → find_urb h.store handle h.processing ≡ some none
      → cancel_process_urb_work v handle h ≡ done false h
  unfolding cancel_process_urb_work
  cancels_unknown v handle h absent absent' =
      rw (absent, cancel_process_urb_work) (rw (absent', cancel_process_urb_work))

  pub cancel_waiting :
      (Sound : Work → Type 0) (v : Virtual D) (handle : ℕ) (h : Hcd D) (w : ℕ)
      → IsVirtual Sound v
      → Owns h
      → AllSound Sound h
      → find_urb h.store handle h.inbox ≡ some (some w)
      → Found h.store handle h.inbox w
      → (t : Hcd D) × (cancel_process_urb_work v handle h ≡ done false t) × Cancels v w h t
  cancel_waiting Sound v handle h w laws own sound runs f =
      let o = f.object in
      let marked = cancel_at-store h w o f.at_address in
      let (u, first_call, fu) = laws.waiting w (cancel_at w h) (cancel o) marked in
      let (t, second_call, ft) =
        laws.finishing w u (cancel o) (rw fu.same_store marked)
          (laws.sound-cancel o (sound w o f.at_address)) in
      (
        t,
        cancels_waiting v handle h u t w runs first_call second_call,
        record {
          owns = λ p.
              rw
                (
                  ft.same_inbox ∙ fu.same_inbox,
                  ft.same_processing ∙ fu.same_processing,
                  ft.same_store ∙ fu.same_store,
                )
                (cancel_at-Owns h w o f.at_address own p);
          same_inbox = ft.same_inbox ∙ fu.same_inbox;
          same_processing = ft.same_processing ∙ fu.same_processing;
          marked = ft.same_store ∙ fu.same_store;
          same_callbacks = ft.same_callbacks ∙ fu.same_callbacks;
          withdrawn =
              rw (ft.same_inbox ∙ fu.same_inbox, ft.same_store ∙ fu.same_store, f.at_address)
                (pending-cancel h.store w o h.inbox f.at_address);
          gives_back = (u, first_call, second_call);
        },
      )

  -- The branches of `cancel_process_urb_work`, given the laws of the virtual methods, on every
  -- state whose objects are owned; one of the three holds, and the call has no undefined behaviour.
  -- A `process_urb_work` for the handle waits in the inbox: it is canceled and given back, and the
  -- result is false. Otherwise one is in processing: `canceling_work` is called for it as in progress, the
  -- ownership and the objects stay, and the call returns true in the state that `canceling_work`
  -- left, or throws its exception. Otherwise there
  -- is none, the state stays, and the result is false.
  pub cancel_process_urb_work-cases :
      (Sound : Work → Type 0) (v : Virtual D) (handle : ℕ) (h : Hcd D)
      → IsVirtual Sound v
      → Owns h
      → AllSound Sound h
      → ((w : ℕ) × Found h.store handle h.inbox w
          × ((t : Hcd D) × (cancel_process_urb_work v handle h ≡ done false t) × Cancels v w h t))
        ⊎ ((w : ℕ) × Absent h.store handle h.inbox
            × Found h.store handle h.processing w
            × ((t : Hcd D) × Grows Sound h t
                × (((v.canceling_work w true h ≡ done tt t)
                      × (cancel_process_urb_work v handle h ≡ done true t))
                    ⊎ ((e : Exception) × (v.canceling_work w true h ≡ throws e t)
                        × (cancel_process_urb_work v handle h ≡ throws e t)))))
        ⊎ (Absent h.store handle h.inbox
            × Absent h.store handle h.processing
            × (cancel_process_urb_work v handle h ≡ done false h))
  cancel_process_urb_work-cases Sound v handle h laws own sound =
      elim (find_urb-total h.store handle h.inbox (λ p. ground (arith, own p))) [
        | inl found ↦ inl (
          found.0,
          found.2,
          cancel_waiting Sound v handle h found.0 laws own sound found.1 found.2,
        )
        | inr absent ↦
            elim (find_urb-total h.store handle h.processing (λ p. ground (arith, own p))) [
              | inl found ↦ inr (inl (reported absent.0 absent.1 found.0 found.1 found.2))
              | inr nowhere ↦
                  inr (inr (absent.1, nowhere.1, cancels_unknown v handle h absent.0 nowhere.0))
            ]
      ]
    where
      reported :
          find_urb h.store handle h.inbox ≡ some none
          → Absent h.store handle h.inbox
          → (w : ℕ) → find_urb h.store handle h.processing ≡ some (some w)
          → Found h.store handle h.processing w
          → (w : ℕ) × Absent h.store handle h.inbox
            × Found h.store handle h.processing w
            × ((t : Hcd D) × Grows Sound h t
                × (((v.canceling_work w true h ≡ done tt t)
                      × (cancel_process_urb_work v handle h ≡ done true t))
                    ⊎ ((e : Exception) × (v.canceling_work w true h ≡ throws e t)
                        × (cancel_process_urb_work v handle h ≡ throws e t))))
      reported none_waits absent w runs f =
          let (t, grows, how) = laws.reporting w h f.object f.at_address own sound in
          (
            w,
            absent,
            f,
            (
              t,
              grows,
              elim how [
                | inl call ↦ inl (call, cancels_in_progress v handle h t w none_waits runs call)
                | inr call ↦
                    inr (
                      call.0,
                      call.1,
                      cancels_throwing v handle h t w call.0 none_waits runs call.1,
                    )
              ],
            ),
          )
