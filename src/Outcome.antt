-- ===== src/Outcome.antt =====
-- What a C++ method does to the object it is called on: it returns a value, it throws, or its
-- behaviour is undefined (`fault`: a null or dangling pointer is read). The state that an exception
-- leaves behind is kept.
use usb_vhci_libusb.Prelude.{◌≡◌, ◌≢◌, refl, ap, subst, Bool, true, false, arith}

-- The classes of exceptions that the sources throw.
pub data Exception : Type 0 where
  invalid_argument out_of_range bad_alloc logic_error other_exception : Exception

pub data Outcome (S A : Type 0) : Type 0 where
  done : A → S → Outcome S A
  throws : Exception → S → Outcome S A
  fault : Outcome S A

-- A method of an object whose state is `S`.
abbrev pub Method : Type 0 → Type 0 → Type 0
Method S A = S → Outcome S A

infixl 5 ◌>>=◌ ◌>>◌
abbrev pub ◌>>=◌ : {S A B : Type 0} → Method S A → (A → Method S B) → Method S B
◌>>=◌ m f s = elim (m s) [ done a t ↦ f a t | throws e t ↦ throws e t | fault ↦ fault ]

abbrev pub ◌>>◌ : {S B : Type 0} → Method S (Unit {0}) → Method S B → Method S B
m >> k = m >>= λ _. k

abbrev pub pure : {S A : Type 0} → A → Method S A
pure a s = done a s

abbrev pub throw : {S A : Type 0} → Exception → Method S A
throw e s = throws e s

abbrev pub modify : {S : Type 0} → (S → S) → Method S (Unit {0})
modify f s = done tt (f s)

-- What a constructor or a function without an object of its own does.
pub data Result (A : Type 0) : Type 0 where
  ok : A → Result A
  raised : Exception → Result A
  undefined : Result A

-- The state after a method that returns.
abbrev state_of : {S A : Type 0} → S → Outcome S A → S
state_of s (done a t) = t
state_of s (throws e t) = t
state_of s fault = s

pub done-state :
    {S A : Type 0} (a b : A) (s t : S) → ◌≡◌ {A = Outcome S A} (done a s) (done b t) → s ≡ t
done-state a b s t e = ap (state_of s) e

pub throws-state :
    {S A : Type 0} (x y : Exception) (s t : S)
    → ◌≡◌ {A = Outcome S A} (throws x s) (throws y t)
    → s ≡ t
throws-state x y s t e = ap (state_of s) e

-- The state afterwards satisfies `P`, also after an exception.
abbrev pub Leaves : {S A : Type 0} → (S → Type 0) → Outcome S A → Type 0
Leaves P (done a t) = P t
Leaves P (throws e t) = P t
Leaves P fault = Unit {0}

-- A method that only looks at its object.
abbrev pub Stays : {S A : Type 0} → Method S A → Type 0
Stays {S} m = (s : S) → Leaves (λ t. t ≡ s) (m s)

module _ {S A B : Type 0} (f : A → Method S B) (later : (a : A) → Stays (f a)) where
  stays_after :
      (s : S) (r : Outcome S A)
      → Leaves (λ t. t ≡ s) r
      → Leaves
          (λ t. t ≡ s)
          (elim r as (λ r. Outcome S B) [
            | done a t ↦ f a t
            | throws e t ↦ throws e t
            | fault ↦ fault
          ])
  stays_after s (done a t) e = subst (λ (x : S). Leaves (λ t. t ≡ x) (f a t)) e (later a t)
  stays_after s (throws x t) e = e
  stays_after s fault e = tt

  pub Stays->>= : (m : Method S A) → Stays m → Stays (m >>= f)
  Stays->>= m first s = stays_after s (m s) (first s)

pub Stays-done :
    {S A : Type 0} (m : Method S A) (a : A) (s t : S) → Stays m → m s ≡ done a t → t ≡ s
Stays-done {S} {A} m a s t stays e = subst (Leaves (λ (t : S). t ≡ s)) e (stays s)

-- What every part of a sequence leaves, the sequence leaves.
module _ {S A B : Type 0} (P : S → Type 0) (f : A → Method S B)
    (later : (a : A) (s : S) → P s → Leaves P (f a s)) where
  Leaves-after :
      (r : Outcome S A)
      → Leaves P r
      → Leaves P (elim r as (λ r. Outcome S B) [
        | done a t ↦ f a t
        | throws e t ↦ throws e t
        | fault ↦ fault
      ])
  Leaves-after (done a t) p = later a t p
  Leaves-after (throws x t) p = p
  Leaves-after fault p = tt

  pub Leaves->>= : (m : Method S A) (s : S) → Leaves P (m s) → Leaves P ((m >>= f) s)
  Leaves->>= m s first = Leaves-after (m s) first

-- The same when the parts after the first leave less.
module _ {S A B : Type 0} (P Q : S → Type 0) (weaker : (s : S) → P s → Q s) (f : A → Method S B)
    (later : (a : A) (s : S) → P s → Leaves Q (f a s)) where
  Leaves-later :
      (r : Outcome S A)
      → Leaves P r
      → Leaves Q (elim r as (λ r. Outcome S B) [
        | done a t ↦ f a t
        | throws e t ↦ throws e t
        | fault ↦ fault
      ])
  Leaves-later (done a t) p = later a t p
  Leaves-later (throws x t) p = weaker t p
  Leaves-later fault p = tt

  pub Leaves-then : (m : Method S A) (s : S) → Leaves P (m s) → Leaves Q ((m >>= f) s)
  Leaves-then m s first = Leaves-later (m s) first

finishes : {S A : Type 0} → Outcome S A → Bool
finishes (done a t) = true
finishes (throws e t) = false
finishes fault = false

false-true : ◌≢◌ {A = Bool} false true
false-true e = ground arith

pub fault-done : {S A : Type 0} (a : A) (s : S) → ◌≢◌ {A = Outcome S A} fault (done a s)
unfolding finishes
fault-done a s e = false-true (ap finishes e)

pub throws-done :
    {S A : Type 0} (a : A) (s t : S) (x : Exception) → ◌≢◌ {A = Outcome S A} (throws x t) (done a s)
unfolding finishes
throws-done a s t x e = false-true (ap finishes e)

value_of : {S A : Type 0} → A → Outcome S A → A
value_of b (done a t) = a
value_of b (throws e t) = b
value_of b fault = b

pub done-value :
    {S A : Type 0} (a b : A) (s t : S) → ◌≡◌ {A = Outcome S A} (done a s) (done b t) → a ≡ b
unfolding value_of
done-value a b s t e = ap (value_of a) e

-- How a call can end.
pub data Ends {S A : Type 0} (r : Outcome S A) : Type 0 where
  returned : (a : A) (t : S) → r ≡ done a t → Ends r
  thrown : (e : Exception) (t : S) → r ≡ throws e t → Ends r
  undefined_behaviour : r ≡ fault → Ends r

pub ends : {S A : Type 0} (r : Outcome S A) → Ends r
ends (done a t) = returned a t refl
ends (throws e t) = thrown e t refl
ends fault = undefined_behaviour refl
