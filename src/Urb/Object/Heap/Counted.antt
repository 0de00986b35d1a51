-- ===== src/Urb/Object/Heap/Counted.antt =====
-- One array of a copy: `_cpy` for one of the two pointers.
use usb_vhci_libusb.Prelude.{
  ◌⊎◌, ℕ, ◌≡◌, ◌≢◌, ◌<◌, refl, sym, ◌∙◌, subst, false, arith, ◌==◌, Option, none, some, inl, inr,
  List, length, ℤ, pos,
}
use mathlib.Core.Path.{fun_ext}
use usb_vhci_libusb.Outcome.{done, throws, bad_alloc}
use usb_vhci_libusb.Urb.Object.Heap.{Blocks, place, renew_counted}
use usb_vhci_libusb.Urb.Object.Heap.Slots.{Owned, NoLeak, Others, renew-Taken}

pub unchanged : (ptr : ℕ → Option ℕ) (i : ℕ) → ptr i ≡ none → (l : ℕ) → ptr l ≡ place ptr i none l
unchanged ptr i null l = ground (arith, null)

module _ {A : Type 0} where
  -- The array that a pointer shows.
  abbrev pub load : Blocks A → Option ℕ → Option (List A)
  load b none = none
  load b (some p) = b p

  -- A pointer fits a count: NULL for 0, and otherwise a live array of as many values.
  abbrev pub Backed : Blocks A → ℤ → Option ℕ → Type 0
  Backed b n none = n ≡ pos 0
  Backed b n (some p) = (xs : List A) × (b p ≡ some xs) × (n ≡ pos (length xs)) × (0 < length xs)

  -- After `r` is stored in the pointer of `i` as a copy of what `source` shows.
  pub record Stored (i : ℕ) (r source : Option ℕ) (b : Blocks A) (ptr : ℕ → Option ℕ) (c : Blocks A)
      : Type 0 where
    pub equal : load c r ≡ load b source
    pub owned : Owned c (place ptr i r)
    pub no_leak : NoLeak b ptr → NoLeak c (place ptr i r)
    pub others : Others i b ptr c

  pub same_pointers :
      (b : Blocks A) (f g : ℕ → Option ℕ) → ((l : ℕ) → f l ≡ g l) → Owned b f → Owned b g
  same_pointers b f g same own = subst (Owned b) (fun_ext same) own

  pub same_leaks :
      (b : Blocks A) (f g : ℕ → Option ℕ) → ((l : ℕ) → f l ≡ g l) → NoLeak b f → NoLeak b g
  same_leaks b f g same all = subst (NoLeak b) (fun_ext same) all

  -- Storing NULL where there was NULL.
  pub Stored-none :
      (b : Blocks A) (ptr : ℕ → Option ℕ) (i : ℕ)
      → Owned b ptr
      → ptr i ≡ none
      → Stored i none none b ptr b
  Stored-none b ptr i own null = record {
    equal = refl;
    owned = same_pointers b ptr (place ptr i none) (unchanged ptr i null) own;
    no_leak = same_leaks b ptr (place ptr i none) (unchanged ptr i null);
    others = λ j p apart at_p. refl;
  }

  -- `new` answers for an array of `n` values, if there are any.
  abbrev pub HasRoom : (Blocks A → Option ℕ) → ℤ → Blocks A → Type 0
  HasRoom new_address n b = (n ≡ pos 0) ⊎ ((p : ℕ) × (new_address b ≡ some p))

  -- There are values, and `new` has no memory for them.
  abbrev pub IsRefused : (Blocks A → Option ℕ) → ℤ → Blocks A → Type 0
  IsRefused new_address n b = (n ≢ pos 0) × (new_address b ≡ none)

  -- Either there is no memory and everything stays, or the pointer gets a copy.
  pub renew_counted-Stored :
      (new_address : Blocks A → Option ℕ) (b : Blocks A) (ptr : ℕ → Option ℕ) (i : ℕ) (n : ℤ)
      (source : Option ℕ)
      → ((p : ℕ) → new_address b ≡ some p → b p ≡ none)
      → Owned b ptr
      → ptr i ≡ none
      → Backed b n source
      → (IsRefused new_address n b
          × (renew_counted new_address n none (λ p. source) b ≡ throws bad_alloc b))
        ⊎ ((r : Option ℕ) × (c : Blocks A) × HasRoom new_address n b
            × (renew_counted new_address n none (λ p. source) b ≡ done r c)
            × Stored i r source b ptr c)
  renew_counted-Stored new_address b ptr i n none fresh own null empty =
      inr (none, b, inl empty, rw empty refl, Stored-none b ptr i own null)
  renew_counted-Stored new_address b ptr i n (some q) fresh own null (xs, held, counted, full) =
      elim (renew-Taken new_address b ptr (λ p. some q) i q xs fresh own null (λ p. refl) held) [
        | inl (refused, starved) ↦
            inl ((λ zero. not_zero zero, refused), rw counted (rw (apart_from_zero full) starved))
        | inr (p, c, given, runs, taken) ↦ inr (
          some p,
          c,
          inr (p, given),
          rw counted (rw (apart_from_zero full) runs),
          record {
            equal = taken.content ∙ sym held;
            owned = taken.owned;
            no_leak = taken.no_leak;
            others = taken.others;
          },
        )
      ]
    where
      not_zero : n ≢ pos 0
      not_zero zero = ground (arith, counted, zero, full)

      apart_from_zero : 0 < length xs → (length xs == 0) ≡ false
      apart_from_zero full = ground (arith, full)
