-- ===== src/LocalHcd/Account.antt =====
-- How many URBs with a handle a local controller still owes the kernel, and how many it has given
-- back.
pub mod Clients
pub mod Cancels
pub mod Calls
use usb_vhci_libusb.Prelude.{
  ℕ, ◌+◌, ◌≤◌, ◌<◌, ◌≡◌, refl, arith, ==_refl, ap, ◌==◌, ltb, Bool, true, false, Bool-cases,
  if◌then◌else◌, Option, none, some, List, [], ◌∷◌, ◌++◌, map, inl, inr,
}
use usb_vhci_libusb.Work.{Work, Store, put}
use usb_vhci_libusb.Hcd.{is_urb, remove}
use usb_vhci_libusb.Hcd.Owned.{count, pending, count-remove}
use usb_vhci_libusb.Device.Giveback.{IocGiveback}
use usb_vhci_libusb.LocalHcd.{LocalHcd}

-- 1 for a work that processes the URB `n`.
abbrev pub for_urb : ℕ → Option Work → ℕ
for_urb n none = 0
for_urb n (some o) = if is_urb n o then 1 else 0

abbrev pub urbs_at : ℕ → Store → List ℕ → ℕ
urbs_at n store [] = 0
urbs_at n store (w ∷ rest) = for_urb n (store w) + urbs_at n store rest

-- The works for the URB `n` that wait and are not canceled, and those that the client holds.
abbrev pub owed : ℕ → LocalHcd → ℕ
owed n h = urbs_at n h.store (pending h.store h.inbox) + urbs_at n h.store h.processing

abbrev pub given : ℕ → List IocGiveback → ℕ
given n gbs = count n (map (λ gb. gb.handle) gbs)

abbrev pub returned : ℕ → LocalHcd → ℕ
returned n h = given n h.derived.given_back

-- From `h` to `t` the URB `n` has come in `extra` times.
abbrev pub Balanced : ℕ → ℕ → LocalHcd → LocalHcd → Type 0
Balanced n extra h t = returned n t + owed n t ≡ returned n h + owed n h + extra

pub given-append : (n : ℕ) (xs ys : List IocGiveback) → given n (xs ++ ys) ≡ given n xs + given n ys
given-append n [] ys = omega arith
given-append n (x ∷ xs) ys = ground (arith, given-append n xs ys)

pub urbs_at-append :
    (n : ℕ) (store : Store) (xs ys : List ℕ)
    → urbs_at n store (xs ++ ys) ≡ urbs_at n store xs + urbs_at n store ys
urbs_at-append n store [] ys = omega arith
urbs_at-append n store (x ∷ xs) ys = omega (arith, urbs_at-append n store xs ys)

-- Only the objects in the list matter.
pub urbs_at-same :
    (n : ℕ) (s t : Store) (xs : List ℕ)
    → ((p : ℕ) → 0 < count p xs → for_urb n (t p) ≡ for_urb n (s p))
    → urbs_at n t xs ≡ urbs_at n s xs
urbs_at-same n s t [] same = refl
urbs_at-same n s t (x ∷ xs) same =
    rw
      (
        same x (ground (arith, ==_refl x)),
        urbs_at-same n s t xs (λ p inside. same p (ground (arith, inside))),
      )
      refl

-- Taking out an address that stands in the list once at most.
pub urbs_at-remove :
    (n : ℕ) (store : Store) (w : ℕ) (xs : List ℕ)
    → count w xs ≤ 1
    → urbs_at n store (remove w xs) + (if ltb 0 (count w xs) then for_urb n (store w) else 0)
      ≡ urbs_at n store xs
unfolding remove
urbs_at-remove n store w [] once = refl
urbs_at-remove n store w (x ∷ xs) once =
    ground (arith, urbs_at-remove n store w xs (ground (arith, once)))

pub count-pending_live :
    (store : Store) (w : ℕ) (o : Work) (xs : List ℕ)
    → store w ≡ some o
    → count w (pending store xs) ≡ (if o.canceled then 0 else count w xs)
count-pending_live store w o [] s = ground arith
count-pending_live store w o (x ∷ xs) s = ground (arith, count-pending_live store w o xs s)
