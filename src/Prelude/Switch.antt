-- ===== src/Prelude/Switch.antt =====
-- A C `switch` on an integer whose every case returns: the first label that fits, or the default.
use mathlib.Core.Path.{◌≡◌, refl, sym, ap, ◌∙◌}
use mathlib.Core.Logic.{◌≢◌, inl, inr}
use mathlib.Core.Bool.{Bool, true, false}
use mathlib.Core.Option.{some, some-injective}
use mathlib.Core.List.{List, [], ◌∷◌, map}
use Prim.Native.Nat.{ℕ, zero, suc}
use native.Mathlib.Omega.{arith}
use usb_vhci_libusb.Prelude.Tests.{if◌then◌else◌, Bool-cases}
use usb_vhci_libusb.Prelude.Int.{ℤ, neg, ◌==ℤ◌, ==ℤ_iff, neg-injective}
use usb_vhci_libusb.Prelude.Lists.{All, Distinct, get_elem?}

abbrev pub switch {ℓ} : {A : Type ℓ} → ℤ → List (ℤ × A) → A → A
switch x [] d = d
switch x ((l, r) ∷ cases) d = if x ==ℤ l then r else switch x cases d

abbrev pub labels {ℓ} : {A : Type ℓ} → List (ℤ × A) → List ℤ
labels = map λ c. c.0

abbrev pub mem : ℤ → List ℤ → Bool
mem x [] = false
mem x (y ∷ ys) = if x ==ℤ y then true else mem x ys

==ℤ_ne : (a b : ℤ) → a ≢ b → (a ==ℤ b) ≡ false
==ℤ_ne a b h = elim (Bool-cases (a ==ℤ b)) [ inl e ↦ absurd (h ((==ℤ_iff a b).0 e)) | inr e ↦ e ]

==ℤ_same : (a : ℤ) → (a ==ℤ a) ≡ true
==ℤ_same a = (==ℤ_iff a a).1 refl

pub mem-false : (x : ℤ) (ys : List ℤ) → All (λ y. x ≢ y) ys → mem x ys ≡ false
mem-false x [] h = refl
mem-false x (y ∷ ys) h = rw (==ℤ_ne x y h.0) (mem-false x ys h.1)

module _ {ℓ} {A : Type ℓ} where
  -- A value that no label fits takes the default.
  pub switch_default :
      (x : ℤ) (cases : List (ℤ × A)) (d : A)
      → All (λ l. x ≢ l) (labels cases)
      → switch x cases d ≡ d
  switch_default x [] d h = refl
  switch_default x ((l, r) ∷ cases) d h = rw (==ℤ_ne x l h.0) (switch_default x cases d h.1)

  apart_at :
      (x : ℤ) (cases : List (ℤ × A)) (i : ℕ) (l : ℤ) (r : A)
      → All (λ y. x ≢ y) (labels cases)
      → get_elem? cases i ≡ some (l, r)
      → x ≢ l
  apart_at x [] i l r h e = cc
  apart_at x ((k, s) ∷ cases) zero l r h e = subst_label (some-injective _ _ e)
    where
      subst_label : ◌≡◌ {A = ℤ × A} (k, s) (l, r) → x ≢ l
      subst_label p q = h.0 (q ∙ sym (ap (λ (c : ℤ × A). c.0) p))
  apart_at x ((k, s) ∷ cases) (suc i) l r h e = apart_at x cases i l r h.1 e

  -- With distinct labels each label takes its own case.
  pub switch_at :
      (cases : List (ℤ × A)) (d : A) (i : ℕ) (l : ℤ) (r : A)
      → Distinct (labels cases)
      → get_elem? cases i ≡ some (l, r)
      → switch l cases d ≡ r
  switch_at [] d i l r h e = cc
  switch_at ((k, s) ∷ cases) d zero l r h e =
      rw (← ap (λ (c : ℤ × A). c.0) pair, ==ℤ_same k) (ap (λ (c : ℤ × A). c.1) pair)
    where
      pair : ◌≡◌ {A = ℤ × A} (k, s) (l, r)
      pair = some-injective _ _ e
  switch_at ((k, s) ∷ cases) d (suc i) l r h e =
      rw (==ℤ_ne l k (λ q. apart_at k cases i l r h.0 e (sym q))) (switch_at cases d i l r h.1 e)

  -- What holds of each label with its own result, and of the default at any other value, holds.
  pub switch_cases {κ} :
      (P : ℤ → A → Type κ) (x : ℤ) (cases : List (ℤ × A)) (d : A)
      → All (λ c. P c.0 c.1) cases
      → (All (λ l. x ≢ l) (labels cases) → P x d)
      → P x (switch x cases d)
  switch_cases P x [] d each other = other tt
  switch_cases P x ((l, r) ∷ cases) d each other = elim (Bool-cases (x ==ℤ l)) [
    | inl e ↦ rw (e, (==ℤ_iff x l).0 e) each.0
    | inr e ↦ rw e (switch_cases P x cases d each.1 (λ h. other (differs e, h)))
  ]
    where
      differs : (x ==ℤ l) ≡ false → x ≢ l
      differs e q = ground (arith, (==ℤ_iff x l).1 q)

All-neg : (m : ℕ) (ns : List ℕ) → All (λ n. m ≢ n) ns → All (λ l. neg m ≢ l) (map neg ns)
All-neg m [] h = tt
All-neg m (n ∷ ns) h = (λ e. h.0 (neg-injective m n e), All-neg m ns h.1)

pub Distinct-neg : (ns : List ℕ) → Distinct ns → Distinct (map neg ns)
Distinct-neg [] h = tt
Distinct-neg (n ∷ ns) h = (All-neg n ns h.0, Distinct-neg ns h.1)

pub apart-neg : (m : ℕ) (ns : List ℕ) → All (λ n. m ≢ n) ns → All (λ l. neg m ≢ l) (map neg ns)
apart-neg m ns h = All-neg m ns h
