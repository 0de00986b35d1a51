-- ===== src/Urb/Object.antt =====
-- src/urb.cpp: the class `usb::urb`, which owns its buffer and its packets. `UrbMemory` is what
-- `new` answers: an array of the length asked for, with any content, or nothing.
pub mod Copies
pub mod Build
pub mod IsoResults
pub mod Members
pub mod PacketAnswers
pub mod Heap
use usb_vhci_libusb.Prelude.{
  ℕ, zero, suc, ◌+◌, Bool, true, false, ◌&&◌, ◌||◌, not, ◌==◌, if◌then◌else◌, is_some, Option, none,
  some, List, [], ◌∷◌, ℤ, pos, negsuc, pos_part, ◌==ℤ◌,
}
use usb_vhci_libusb.Kernel.{Header}
use usb_vhci_libusb.Status
use usb_vhci_libusb.Urb.{Urb, IsoPacket, is_in, is_iso, is_int, is_control, is_bulk}
use usb_vhci_libusb.Outcome.{
  Result, ok, raised, undefined, Exception, invalid_argument, logic_error, bad_alloc,
}

pub record UrbMemory : Type 0 where
  pub new_bytes : ℕ → Option (List ℕ)
  pub new_packets : ℕ → Option (List IsoPacket)

infixl 5 ◌>>=◌
abbrev pub ◌>>=◌ : {A B : Type 0} → Result A → (A → Result B) → Result B
ok a >>= f = f a
raised x >>= f = raised x
undefined >>= f = undefined

abbrev pub is_zero : ℤ → Bool
is_zero n = n ==ℤ pos 0

module _ {A : Type 0} where
  -- Reading the first `n` values behind a pointer.
  unfoldable pub read : ℕ → List A → Result (List A)
  read zero xs = ok []
  read (suc n) [] = undefined
  read (suc n) (x ∷ xs) = elim (read n xs) [
    | ok rest ↦ ok (x ∷ rest)
    | raised e ↦ raised e
    | undefined ↦ undefined
  ]

  read_pointer : ℕ → Option (List A) → Result (List A)
  read_pointer n none = undefined
  read_pointer n (some xs) = read n xs

  -- `p = new A[n]; std::copy(from, from + n, p);`, with `memory` for what `new` answers.
  unfoldable pub duplicate : (ℕ → Option (List A)) → ℤ → Option (List A) → Result (Option (List A))
  unfolding read read_pointer
  duplicate memory (negsuc n) from = raised bad_alloc
  duplicate memory (pos n) from = elim (memory n) [
    | none ↦ raised bad_alloc
    | some fresh ↦ elim (read_pointer n from) [
      | ok xs ↦ ok (some xs)
      | raised e ↦ raised e
      | undefined ↦ undefined
    ]
  ]

-- `_cpy(u)` on an object whose structure is `self`.
unfoldable pub cpy : UrbMemory → Urb → Urb → Result Urb
cpy m u self = do
  bytes ←
      if is_zero self.buffer_length
      then ok self.buffer
      else duplicate m.new_bytes self.buffer_length u.buffer
  packets ←
      if is_zero self.packet_count
      then ok self.iso_packets
      else duplicate m.new_packets self.packet_count u.iso_packets
  ok (record self { buffer = bytes; iso_packets = packets })

-- `_chk()`.
unfoldable pub chk : Header → Urb → Result Urb
chk k u =
    if is_iso k u.type
    then if not (is_zero u.packet_count) && is_zero u.buffer_length
      then raised invalid_argument
      else ok u
    else if is_int k u.type || (is_control k u.type || is_bulk k u.type)
    then ok (record u { packet_count = pos 0 })
    else raised invalid_argument

-- `urb(const urb&)`, and what `operator=` stores.
unfoldable pub copy_urb : UrbMemory → Urb → Result Urb
copy_urb m u = cpy m u (record u { buffer = none; iso_packets = none })

-- `urb(const usb_vhci_urb&)`.
unfoldable pub from_struct : Header → UrbMemory → Urb → Result Urb
from_struct k m u = do self ← chk k (record u { buffer = none; iso_packets = none }); cpy m u self

-- `urb(const usb_vhci_urb&, bool own)`.
unfoldable pub from_struct_own : Header → UrbMemory → Urb → Bool → Result Urb
from_struct_own k m u false = from_struct k m u
from_struct_own k m u true = chk k u >>= λ self.
    if is_zero self.buffer_length && is_some self.buffer
    then raised invalid_argument
    else if is_zero self.packet_count && is_some self.iso_packets
    then raised invalid_argument
    else ok self

-- The loop of `set_iso_results`: how many of the first `n` packets have failed.
count_errors : ℕ → List IsoPacket → Result ℕ
count_errors zero ps = ok 0
count_errors (suc n) [] = undefined
count_errors (suc n) (p ∷ ps) = elim (count_errors n ps) [
  | ok rest ↦ ok (if p.status ==ℤ Status.success then rest else rest + 1)
  | raised e ↦ raised e
  | undefined ↦ undefined
]

abbrev pub pointee : Option (List IsoPacket) → List IsoPacket
pointee none = []
pointee (some ps) = ps

unfoldable pub set_iso_results : Header → Urb → Result Urb
unfolding count_errors
set_iso_results k u =
    if is_iso k u.type
    then (count_errors (pos_part u.packet_count) (pointee u.iso_packets) >>= λ errors.
        ok (record u {
          error_count = pos errors;
          status =
              if pos errors ==ℤ u.packet_count
              then Status.all_iso_packets_failed
              else Status.success;
          buffer_actual = if is_in u.epadr then u.buffer_length else u.buffer_actual;
        }))
    else raised logic_error
