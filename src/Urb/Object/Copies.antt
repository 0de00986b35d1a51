-- ===== src/Urb/Object/Copies.antt =====
-- Copies of URB objects are deep and equal; which structures the owning constructor takes.
use usb_vhci_libusb.Prelude.{
  ℕ, ◌≡◌, ◌<◌, refl, Bool, true, false, not, arith, ◌&&◌, ◌||◌, if◌then◌else◌, is_some,
  Option-cases, inl, inr, Option, none, some, List, [], ◌∷◌, length, ℤ, pos, negsuc, ==ℤ_iff,
}
use usb_vhci_libusb.Kernel.{Header}
use usb_vhci_libusb.Urb.{Urb, IsoPacket, is_iso, is_int, is_control, is_bulk}
use usb_vhci_libusb.Outcome.{ok, raised, invalid_argument}
use usb_vhci_libusb.Urb.Object.{
  UrbMemory, is_zero, read, duplicate, cpy, chk, copy_urb, from_struct_own,
}

-- NULL for a count of 0, and an array of as many values as counted otherwise.
abbrev pub ArrayFits : {A : Type 0} → ℤ → Option (List A) → Type 0
ArrayFits n none = n ≡ pos 0
ArrayFits n (some xs) = (n ≡ pos (length xs)) × (0 < length xs)

-- Both arrays of a URB are as long as its counts say.
pub record ArraysFit (u : Urb) : Type 0 where
  pub buffer_fits : ArrayFits u.buffer_length u.buffer
  pub packets_fit : ArrayFits u.packet_count u.iso_packets

-- Every `new` succeeds.
abbrev pub IsEnough : UrbMemory → Type 0
IsEnough m = (n : ℕ) → (is_some (m.new_bytes n) ≡ true) × (is_some (m.new_packets n) ≡ true)

pub read_lem : {A : Type 0} (xs : List A) → read (length xs) xs ≡ ok xs
unfolding read
read_lem [] = refl
read_lem (x ∷ xs) = rw (read_lem xs, read)

duplicate_bytes :
    (m : UrbMemory) (n : ℤ) (o : Option (List ℕ))
    → IsEnough m
    → ArrayFits n o
    → is_zero n ≡ false
    → duplicate m.new_bytes n o ≡ ok o
unfolding duplicate
duplicate_bytes m n none enough fits apart = absurd (ground arith)
duplicate_bytes m (negsuc n) (some xs) enough fits apart = absurd (ground arith)
duplicate_bytes m (pos n) (some xs) enough fits apart = elim (Option-cases (m.new_bytes n)) [
  | inl none_left ↦ absurd (ground (arith, enough n))
  | inr (fresh, e) ↦ rw (e, duplicate) (ground (arith, read_lem xs))
]

duplicate_packets :
    (m : UrbMemory) (n : ℤ) (o : Option (List IsoPacket))
    → IsEnough m
    → ArrayFits n o
    → is_zero n ≡ false
    → duplicate m.new_packets n o ≡ ok o
unfolding duplicate
duplicate_packets m n none enough fits apart = absurd (ground arith)
duplicate_packets m (negsuc n) (some xs) enough fits apart = absurd (ground arith)
duplicate_packets m (pos n) (some xs) enough fits apart = elim (Option-cases (m.new_packets n)) [
  | inl none_left ↦ absurd (ground (arith, enough n))
  | inr (fresh, e) ↦ rw (e, duplicate) (ground (arith, read_lem xs))
]

bytes_step :
    (m : UrbMemory) (n : ℤ) (o : Option (List ℕ))
    → IsEnough m
    → ArrayFits n o
    → (if is_zero n then ok none else duplicate m.new_bytes n o) ≡ ok o
bytes_step m n none enough fits = ground arith
bytes_step m n (some xs) enough fits = ground (arith, duplicate_bytes m n (some xs) enough fits)

packets_step :
    (m : UrbMemory) (n : ℤ) (o : Option (List IsoPacket))
    → IsEnough m
    → ArrayFits n o
    → (if is_zero n then ok none else duplicate m.new_packets n o) ≡ ok o
packets_step m n none enough fits = ground arith
packets_step m n (some xs) enough fits = ground (arith, duplicate_packets m n (some xs) enough fits)

-- The copy constructor of a URB whose arrays fit its counts gives an equal URB, in arrays of its
-- own, whatever the fresh memory holds; for this every `new` must succeed.
pub copy_urb_self : (m : UrbMemory) (u : Urb) → IsEnough m → ArraysFit u → copy_urb m u ≡ ok u
unfolding copy_urb cpy
copy_urb_self m u enough fit = rw (
  bytes_step m u.buffer_length u.buffer enough fit.buffer_fits,
  packets_step m u.packet_count u.iso_packets enough fit.packets_fit,
)

-- A URB of a known type; isochronous packets, which need a buffer, only if it is isochronous.
abbrev pub is_proper : Header → Urb → Bool
is_proper k u =
    if is_iso k u.type
    then is_zero u.packet_count || not (is_zero u.buffer_length)
    else (is_int k u.type || (is_control k u.type || is_bulk k u.type)) && is_zero u.packet_count

fits_zero : {A : Type 0} (n : ℤ) (o : Option (List A)) → ArrayFits n o → is_zero n ≡ not (is_some o)
fits_zero n none fits = ground arith
fits_zero n (some xs) fits = ground arith

zero_eq : (n : ℤ) → is_zero n ≡ true → n ≡ pos 0
zero_eq n z = (==ℤ_iff n (pos 0)).0 z

-- The owning constructor takes a structure whose arrays fit its counts exactly if it is proper, and
-- then as it is; it throws `invalid_argument` for every other.
pub from_struct_own-proper :
    (k : Header) (m : UrbMemory) (u : Urb)
    → ArraysFit u
    → from_struct_own k m u true ≡ (if is_proper k u then ok u else raised invalid_argument)
unfolding from_struct_own chk
from_struct_own-proper k m u fit = ground (
  arith,
  fits_zero u.buffer_length u.buffer fit.buffer_fits,
  fits_zero u.packet_count u.iso_packets fit.packets_fit,
  zero_eq u.packet_count,
)
