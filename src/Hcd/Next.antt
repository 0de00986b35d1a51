-- ===== src/Hcd/Next.antt =====
-- `next_work` hands out the waiting works in order.
use usb_vhci_libusb.Prelude.{
  ℕ, ◌+◌, ◌≡◌, refl, sym, ap, ◌∙◌, Bool, true, false, arith, ==_refl, Bool-cases, Option-cases,
  Option, none, some, List, [], ◌∷◌, ◌++◌, inl, inr, is_some, All,
}
use mathlib.Core.List.{append-nil}
use usb_vhci_libusb.Work.{Work, put}
use usb_vhci_libusb.Outcome.{done, throws, bad_alloc, fault-done, throws-done}
use usb_vhci_libusb.Hcd.{Hcd, next_work, next_work_loop}
use usb_vhci_libusb.Hcd.Owned.{count, Owns, count-append, pending, pending-put}

abbrev pub first : List ℕ → Option ℕ
first [] = none
first (x ∷ xs) = some x

abbrev pub others : List ℕ → List ℕ
others [] = []
others (x ∷ xs) = xs

abbrev pub singleton : Option ℕ → List ℕ
singleton none = []
singleton (some x) = x ∷ []

abbrev pub is_nonempty : List ℕ → Bool
is_nonempty [] = false
is_nonempty (x ∷ xs) = true

module _ {D : Type 0} where
  -- What a call that finds memory does, from `h` to `t` with result `r`.
  pub record Hands (h : Hcd D) (r : Option ℕ × Bool) (t : Hcd D) : Type 0 where
    pub owns : Owns t
    pub oldest : r.0 ≡ first (pending h.store h.inbox)
    pub remaining : pending t.store t.inbox ≡ others (pending h.store h.inbox)
    pub passed :
        (ps : List ℕ) × (h.inbox ≡ ps ++ singleton r.0 ++ t.inbox) × All (λ p. t.store p ≡ none) ps
    pub handed : t.processing ≡ h.processing ++ singleton r.0
    pub more : r.1 ≡ is_nonempty t.inbox
    pub same_objects : (p : ℕ) → is_some (t.store p) ≡ true → t.store p ≡ h.store p
    pub same_callbacks : t.work_enqueued_callbacks ≡ h.work_enqueued_callbacks
    pub same_derived : t.derived ≡ h.derived

  -- Deleting a canceled work at the head of the inbox.
  drop_head : (w : ℕ) (rest : List ℕ) → Hcd D → Hcd D
  drop_head w rest h = record h { inbox = rest; store = put h.store w none }

  drop_head-Owns :
      (h : Hcd D) (w : ℕ) (rest : List ℕ) (o : Work)
      → h.inbox ≡ w ∷ rest
      → h.store w ≡ some o
      → Owns h
      → Owns (drop_head w rest h)
  unfolding drop_head
  drop_head-Owns h w rest o e s own p = ground (arith, own p, own w)

  take_head : (w : ℕ) (rest : List ℕ) → Hcd D → Hcd D
  take_head w rest h = record h { inbox = rest; processing = h.processing ++ w ∷ [] }

  take_head-Owns :
      (h : Hcd D) (w : ℕ) (rest : List ℕ) → h.inbox ≡ w ∷ rest → Owns h → Owns (take_head w rest h)
  unfolding take_head
  take_head-Owns h w rest e own p = ground (arith, own p, count-append p h.processing (w ∷ []))

  head_apart :
      (h : Hcd D) (w : ℕ) (rest : List ℕ) (o : Work)
      → h.inbox ≡ w ∷ rest
      → h.store w ≡ some o
      → Owns h
      → count w rest ≡ 0
  head_apart h w rest o e s own = ground (arith, own w, ==_refl w)

  skip_step :
      (fits : Bool) (h : Hcd D) (w : ℕ) (rest : List ℕ) (o : Work)
      → h.store w ≡ some o
      → o.canceled ≡ true
      → next_work_loop fits (w ∷ rest) h ≡ next_work_loop fits rest (drop_head w rest h)
  unfolding next_work_loop drop_head
  skip_step fits h w rest o s c = rw (s, next_work_loop) (rw c)

  take_step :
      (h : Hcd D) (w : ℕ) (rest : List ℕ) (o : Work)
      → h.store w ≡ some o
      → o.canceled ≡ false
      → next_work_loop true (w ∷ rest) h ≡ done (some w, is_nonempty rest) (take_head w rest h)
  unfolding next_work_loop take_head
  take_step h w [] o s c = rw (s, next_work_loop) (rw c)
  take_step h w (x ∷ rest) o s c = rw (s, next_work_loop) (rw c (ground arith))

  pending_skip :
      (h : Hcd D) (w : ℕ) (rest : List ℕ) (o : Work)
      → h.inbox ≡ w ∷ rest
      → h.store w ≡ some o
      → o.canceled ≡ true
      → Owns h
      → pending (drop_head w rest h).store rest ≡ pending h.store h.inbox
  unfolding drop_head
  pending_skip h w rest o e s c own =
      pending-put h.store w none rest (head_apart h w rest o e s own) ∙ ground arith

  next_work_loop-Hands :
      (xs : List ℕ) (h : Hcd D)
      → h.inbox ≡ xs
      → Owns h
      → (r : Option ℕ × Bool) × (t : Hcd D) × (next_work_loop true xs h ≡ done r t) × Hands h r t
  unfolding next_work_loop drop_head take_head
  next_work_loop-Hands [] h e own = (
    (none, false),
    h,
    refl,
    record {
      owns = own;
      oldest = ground arith;
      remaining = ground arith;
      passed = ([], refl, tt);
      handed = sym (append-nil h.processing);
      more = ground arith;
      same_objects = λ p _. refl;
      same_callbacks = refl;
      same_derived = refl;
    },
  )
  next_work_loop-Hands (w ∷ rest) h e own = elim (Option-cases (h.store w)) [
    | inl gone ↦ absurd (ground (arith, own w, ==_refl w))
    | inr (o, s) ↦ elim (Bool-cases o.canceled) [
      | inl c ↦
          skipped o s c (
            next_work_loop-Hands rest (drop_head w rest h) refl (drop_head-Owns h w rest o e s own))
      | inr c ↦ (
        (some w, is_nonempty rest),
        take_head w rest h,
        take_step h w rest o s c,
        record {
          owns = take_head-Owns h w rest e own;
          oldest = ground arith;
          remaining = ground arith;
          passed = ([], e, tt);
          handed = refl;
          more = refl;
          same_objects = λ p _. refl;
          same_callbacks = refl;
          same_derived = refl;
        },
      )
    ]
  ]
    where
      freed : {r : Option ℕ × Bool} {t : Hcd D} → Hands (drop_head w rest h) r t → t.store w ≡ none
      freed {t = t} hands = elim (Option-cases (t.store w)) [
        | inl gone ↦ gone
        | inr (o, s) ↦ absurd (ground (arith, hands.same_objects w, ==_refl w))
      ]

      skipped :
          (o : Work)
          → h.store w ≡ some o
          → o.canceled ≡ true
          → ((r : Option ℕ × Bool) × (t : Hcd D) × (next_work_loop true rest (drop_head w rest h)
                ≡ done r t)
              × Hands (drop_head w rest h) r t)
          → (r : Option ℕ × Bool) × (t : Hcd D) × (next_work_loop true (w ∷ rest) h ≡ done r t)
            × Hands h r t
      skipped o s c (r, t, runs, hands) = (
        r,
        t,
        skip_step true h w rest o s c ∙ runs,
        record {
          owns = hands.owns;
          oldest = hands.oldest ∙ ap first (pending_skip h w rest o e s c own);
          remaining = hands.remaining ∙ ap others (pending_skip h w rest o e s c own);
          passed = (
            w ∷ hands.passed.0,
            e ∙ ap (λ xs. w ∷ xs) hands.passed.1,
            (freed hands, hands.passed.2),
          );
          handed = hands.handed;
          more = hands.more;
          same_objects = λ p live. ground (arith, hands.same_objects p live);
          same_callbacks = hands.same_callbacks;
          same_derived = hands.same_derived;
        },
      )

  -- With memory to grow, `next_work` returns on every state whose objects are owned: it hands out
  -- the oldest work that is not canceled, or none if there is none, moves it to the end of
  -- `processing`, leaves the later waiting works in their order, frees the canceled works that it
  -- passes, keeps the ownership, the other objects, the callbacks and the derived members, and says
  -- `true` exactly when its inbox is not empty afterwards.
  pub next_work-Hands :
      (h : Hcd D)
      → Owns h
      → (r : Option ℕ × Bool) × (t : Hcd D) × (next_work true h ≡ done r t) × Hands h r t
  unfolding next_work
  next_work-Hands h own = next_work_loop-Hands h.inbox h refl own

  next_work_loop-returns :
      (xs : List ℕ) (h t : Hcd D) (r : Option ℕ × Bool)
      → next_work_loop false xs h ≡ done r t
      → next_work_loop true xs h ≡ done r t
  unfolding next_work_loop
  next_work_loop-returns [] h t r runs = runs
  next_work_loop-returns (w ∷ rest) h t r runs = elim (Option-cases (h.store w)) [
    | inl gone ↦ absurd (fault-done r t (rw (gone, next_work_loop) at runs))
    | inr (o, s) ↦ elim (Bool-cases o.canceled) [
      | inl c ↦
          rw (s, next_work_loop)
            (rw c (
              next_work_loop-returns rest (record h { inbox = rest; store = put h.store w none }) t
                r (rw c at (rw (s, next_work_loop) at runs))))
      | inr c ↦ absurd (throws-done r t _ bad_alloc (rw c at (rw (s, next_work_loop) at runs)))
    ]
  ]

  -- A call that returns does the same with more memory.
  pub next_work_returns :
      (fits : Bool) (h t : Hcd D) (r : Option ℕ × Bool)
      → next_work fits h ≡ done r t
      → next_work true h ≡ done r t
  unfolding next_work
  next_work_returns true h t r runs = runs
  next_work_returns false h t r runs = next_work_loop-returns h.inbox h t r runs

  -- A failure of `push_back` in `next_work` loses the work: on every state whose objects are owned
  -- and whose oldest work is not canceled, the call throws `bad_alloc`, and afterwards that work is
  -- still allocated and in neither container.
  pub next_work_loses :
      (h : Hcd D) (w : ℕ) (rest : List ℕ) (o : Work)
      → Owns h
      → h.inbox ≡ w ∷ rest
      → h.store w ≡ some o
      → o.canceled ≡ false
      → (t : Hcd D) × (next_work false h ≡ throws bad_alloc t)
        × (t.store w ≡ some o)
        × (count w t.inbox + count w t.processing ≡ 0)
  unfolding next_work next_work_loop
  next_work_loses h w rest o own e s c = (
    record h { inbox = rest },
    rw e (rw (s, next_work_loop) (rw c)),
    s,
    ground (arith, own w, ==_refl w),
  )
