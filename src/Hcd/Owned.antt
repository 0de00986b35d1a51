-- ===== src/Hcd/Owned.antt =====
-- Ownership of the work objects: the containers together point to every live object exactly once.
use usb_vhci_libusb.Prelude.{
  ℕ, ◌+◌, ◌≤◌, ◌<◌, ◌≡◌, refl, arith, ==_refl, ◌==◌, if◌then◌else◌, Option, none, some, List, [],
  ◌∷◌, ◌++◌,
}
use usb_vhci_libusb.Work.{Work, Store, put, held}
use usb_vhci_libusb.Hcd.{Hcd, remove}

abbrev pub count : ℕ → List ℕ → ℕ
count p [] = 0
count p (x ∷ xs) = (if p == x then 1 else 0) + count p xs

-- No object is lost, none is in two places, and no address dangles.
abbrev pub Owns : {D : Type 0} → Hcd D → Type 0
Owns h = (p : ℕ) → count p h.inbox + count p h.processing ≡ held (h.store p)

pub count-append : (p : ℕ) (xs ys : List ℕ) → count p (xs ++ ys) ≡ count p xs + count p ys
count-append p [] ys = omega arith
count-append p (x ∷ xs) ys = omega (arith, count-append p xs ys)

pub count-remove :
    (p w : ℕ) (xs : List ℕ) → count p (remove w xs) ≡ (if p == w then 0 else count p xs)
unfolding remove
count-remove p w [] = ground arith
count-remove p w (x ∷ xs) = ground (arith, count-remove p w xs)

-- The works that the client can still be handed: those in the inbox that are not canceled.
abbrev pub pending : Store → List ℕ → List ℕ
pending store [] = []
pending store (w ∷ rest) =
    let later = pending store rest in
    elim (store w) [ none ↦ later | some o ↦ if o.canceled then later else w ∷ later ]

pub pending-put :
    (store : Store) (w : ℕ) (v : Option Work) (xs : List ℕ)
    → count w xs ≡ 0
    → pending (put store w v) xs ≡ pending store xs
pending-put store w v [] h = refl
pending-put store w v (x ∷ xs) h = ground (arith, pending-put store w v xs)

pub pending-append :
    (store : Store) (xs ys : List ℕ)
    → pending store (xs ++ ys) ≡ pending store xs ++ pending store ys
pending-append store [] ys = refl
pending-append store (x ∷ xs) ys = ground (arith, pending-append store xs ys)

pub count-pending : (p : ℕ) (store : Store) (xs : List ℕ) → count p (pending store xs) ≤ count p xs
count-pending p store [] = omega arith
count-pending p store (x ∷ xs) = ground (arith, count-pending p store xs)

-- Objects that stay as they are stay waiting.
pub pending_same :
    (old new : Store) (xs : List ℕ)
    → ((p : ℕ) → 0 < count p xs → new p ≡ old p)
    → pending new xs ≡ pending old xs
pending_same old new [] same = refl
pending_same old new (x ∷ xs) same =
    rw (same x (ground (arith, ==_refl x)), pending)
      (ground (arith, pending_same old new xs (λ p inside. same p (ground (arith, inside)))))

pub held-le-one : (o : Option Work) → held o ≤ 1
held-le-one none = omega arith
held-le-one (some w) = omega arith
