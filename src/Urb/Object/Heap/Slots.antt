-- ===== src/Urb/Object/Heap/Slots.antt =====
-- The arrays of one type and the pointers of the objects to them: what `delete[]` and `new[]` with a
-- copy leave. `ptr i` is where the object `i` points to.
use usb_vhci_libusb.Prelude.{
  ◌⊎◌, ℕ, ◌≡◌, ◌≢◌, refl, ap, true, false, arith, ◌==◌, Option, none, some, is_some, Option-cases,
  Bool-cases, inl, inr, List, length, pos,
}
use mathlib.Core.Option.{some-injective}
use usb_vhci_libusb.Outcome.{done, throws, bad_alloc}
use usb_vhci_libusb.Urb.Object.Copies.{read_lem}
use usb_vhci_libusb.Urb.Object.Heap.{Blocks, place, delete_array, renew}

module _ {A : Type 0} where
  -- Every pointer is to a live array, and no two are to the same.
  pub record Owned (b : Blocks A) (ptr : ℕ → Option ℕ) : Type 0 where
    pub live : (i p : ℕ) → ptr i ≡ some p → is_some (b p) ≡ true
    pub apart : (i j p : ℕ) → ptr i ≡ some p → ptr j ≡ some p → i ≡ j

  -- Every live array has a pointer to it.
  abbrev pub NoLeak : Blocks A → (ℕ → Option ℕ) → Type 0
  NoLeak b ptr = (p : ℕ) (xs : List A) → b p ≡ some xs → (i : ℕ) × (ptr i ≡ some p)

  -- What the pointers of the objects other than `i` are to stays.
  abbrev pub Others : ℕ → Blocks A → (ℕ → Option ℕ) → Blocks A → Type 0
  Others i b ptr c = (j p : ℕ) → j ≢ i → ptr j ≡ some p → c p ≡ b p

  -- The arrays without the one at an address.
  abbrev pub emptied : Option ℕ → Blocks A → Blocks A
  emptied none b = b
  emptied (some p) b = place b p none

  -- After `delete[]` of the pointer of `i`.
  pub record Freed (i : ℕ) (b : Blocks A) (ptr : ℕ → Option ℕ) (c : Blocks A) : Type 0 where
    pub owned : Owned c (place ptr i none)
    pub no_leak : NoLeak b ptr → NoLeak c (place ptr i none)
    pub others : Others i b ptr c
    pub content : c ≡ emptied (ptr i) b

  freed-Owned :
      (b : Blocks A) (ptr : ℕ → Option ℕ) (i p : ℕ)
      → Owned b ptr
      → ptr i ≡ some p
      → Owned (place b p none) (place ptr i none)
  freed-Owned b ptr i p own at_p = record {
    live = λ j q e. ground (arith, own.live j q, own.apart i j p at_p, e);
    apart = λ j l q e e'. ground (arith, own.apart j l q, e, e');
  }

  -- Without one of the pointers.
  pub Owned-without :
      (b : Blocks A) (ptr : ℕ → Option ℕ) (i : ℕ) → Owned b ptr → Owned b (place ptr i none)
  Owned-without b ptr i own = record {
    live = λ j q e. ground (arith, own.live j q, e);
    apart = λ j l q e e'. ground (arith, own.apart j l q, e, e');
  }

  freed_leak :
      (b : Blocks A) (ptr : ℕ → Option ℕ) (i p : ℕ)
      → Owned b ptr
      → ptr i ≡ some p
      → NoLeak b ptr
      → NoLeak (place b p none) (place ptr i none)
  freed_leak b ptr i p own at_p all q xs e = elim (Bool-cases (p == q)) [
    | inl same ↦ absurd (ground (arith, same, e))
    | inr other ↦
        let (j, at_q) = all q xs (rw other at e) in
        (j, ground (arith, at_q, at_p, other, some-injective p q))
  ]

  freed_others :
      (b : Blocks A) (ptr : ℕ → Option ℕ) (i p : ℕ)
      → Owned b ptr
      → ptr i ≡ some p
      → Others i b ptr (place b p none)
  freed_others b ptr i p own at_p j q apart at_q = ground (arith, own.apart i j p at_p, apart, at_q)

  -- `delete[]` of an owned pointer is defined, and frees what the object has.
  pub delete_array-Freed :
      (b : Blocks A) (ptr : ℕ → Option ℕ) (i : ℕ)
      → Owned b ptr
      → (c : Blocks A) × (delete_array (ptr i) b ≡ done tt c) × Freed i b ptr c
  unfolding delete_array
  delete_array-Freed b ptr i own = elim (Option-cases (ptr i)) [
    | inl null ↦ (
      b,
      rw (null, delete_array) refl,
      record {
        owned = record {
          live = λ j q e. ground (arith, own.live j q, e);
          apart = λ j l q e e'. ground (arith, own.apart j l q, e, e');
        };
        no_leak = λ all q xs e. let (j, at_q) = all q xs e in (j, ground (arith, at_q, null));
        others = λ j q apart at_q. refl;
        content = rw null refl;
      },
    )
    | inr (p, at_p) ↦ elim (Option-cases (b p)) [
      | inl gone ↦ absurd (ground (arith, own.live i p at_p, gone))
      | inr (xs, held) ↦ (
        place b p none,
        rw (at_p, delete_array) (rw (held, delete_array) refl),
        record {
          owned = freed-Owned b ptr i p own at_p;
          no_leak = freed_leak b ptr i p own at_p;
          others = freed_others b ptr i p own at_p;
          content = rw at_p refl;
        },
      )
    ]
  ]

  -- After the array `p` with content `xs` is stored in the pointer of `i`.
  pub record Taken (i p : ℕ) (xs : List A) (b : Blocks A) (ptr : ℕ → Option ℕ) (c : Blocks A)
      : Type 0 where
    pub content : c p ≡ some xs
    pub owned : Owned c (place ptr i (some p))
    pub no_leak : NoLeak b ptr → NoLeak c (place ptr i (some p))
    pub others : Others i b ptr c

  place-Taken :
      (b : Blocks A) (ptr : ℕ → Option ℕ) (i p : ℕ) (xs : List A)
      → Owned b ptr
      → ptr i ≡ none
      → b p ≡ none
      → Taken i p xs b ptr (place b p (some xs))
  place-Taken b ptr i p xs own null fresh = record {
    content = ground arith;
    owned = record {
      live = λ j q e. ground (arith, own.live j q, e, fresh);
      apart = λ j l q e e'.
          ground
            (arith, own.apart j l q, own.live j q, own.live l q, e, e', fresh, some-injective p q);
    };
    no_leak = λ all q ys e. elim (Bool-cases (p == q)) [
      | inl same ↦ (i, ground (arith, same))
      | inr other ↦ let (j, at_q) = all q ys (rw other at e) in (j, ground (arith, at_q, null))
    ];
    others = λ j q apart at_q. ground (arith, own.live j q at_q, fresh, at_q);
  }

  -- A copy for the object `i`, which has no array, of an owned array of another object either fails
  -- for want of memory and leaves everything, or gives the object an equal array of its own.
  pub renew-Taken :
      (new_address : Blocks A → Option ℕ) (b : Blocks A) (ptr from : ℕ → Option ℕ) (i q : ℕ)
      (xs : List A)
      → ((p : ℕ) → new_address b ≡ some p → b p ≡ none)
      → Owned b ptr
      → ptr i ≡ none
      → ((p : ℕ) → from p ≡ some q)
      → b q ≡ some xs
      → ((new_address b ≡ none) × (renew new_address (pos (length xs)) from b ≡ throws bad_alloc b))
        ⊎ ((p : ℕ) × (c : Blocks A) × (new_address b ≡ some p)
            × (renew new_address (pos (length xs)) from b ≡ done (some p) c)
            × Taken i p xs b ptr c)
  unfolding renew
  renew-Taken new_address b ptr from i q xs fresh own null source held =
      elim (Option-cases (new_address b)) [
        | inl starved ↦ inl (starved, rw (starved, renew) refl)
        | inr (p, a) ↦ inr (
          p,
          place b p (some xs),
          a,
          rw (a, renew)
              (rw (source p, renew)
                (rw (unlike p (fresh p a)) (rw (held, renew) (rw (read_lem xs, renew) refl)))),
          place-Taken b ptr i p xs own null (fresh p a),
        )
      ]
    where
      unlike : (p : ℕ) → b p ≡ none → (q == p) ≡ false
      unlike p unused = ground (arith, held, unused, ap b)
