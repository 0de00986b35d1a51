-- ===== src/Urb/Object/Members.antt =====
-- src/libusb_vhci.h: the inline methods of `usb::urb` that read flags, addresses and packets or
-- write a result. The methods that return one member are the fields of the structure.
use usb_vhci_libusb.Prelude.{
  ℕ, Bool, bit_and, has, none, some, List, get_elem?, set, drop, ltb, length, if◌then◌else◌, ℤ, pos,
  negsuc,
}
use usb_vhci_libusb.Kernel.{Header}
use usb_vhci_libusb.Status
use usb_vhci_libusb.Urb.{Urb, IsoPacket}
use usb_vhci_libusb.Outcome.{Result, ok, undefined}
use usb_vhci_libusb.Urb.Object.{pointee, ◌>>=◌}

abbrev pub endpoint_number : Urb → ℕ
endpoint_number u = bit_and u.epadr 0x07

abbrev pub is_short_not_ok : Header → Urb → Bool
is_short_not_ok k u = has u.flags k.urb_flags_short_not_ok

abbrev pub is_zero_packet : Header → Urb → Bool
is_zero_packet k u = has u.flags k.urb_flags_zero_packet

abbrev pub set_status : ℤ → Urb → Urb
set_status value u = record u { status = value }

abbrev pub ack : Urb → Urb
ack u = set_status Status.success u

abbrev pub stall : Urb → Urb
stall u = set_status Status.stall u

abbrev pub set_buffer_actual : ℤ → Urb → Urb
set_buffer_actual value u = record u { buffer_actual = value }

abbrev pub set_iso_error_count : ℤ → Urb → Urb
set_iso_error_count value u = record u { error_count = value }

-- `_urb.iso_packets[index]`; an index out of range is undefined behaviour.
unfoldable pub packet_at : ℤ → Urb → Result IsoPacket
packet_at (negsuc n) u = undefined
packet_at (pos n) u = elim (get_elem? (pointee u.iso_packets) n) [
  | none ↦ undefined
  | some p ↦ ok p
]

abbrev pub get_iso_packet_offset : ℤ → Urb → Result ℕ
get_iso_packet_offset index u = packet_at index u >>= λ p. ok p.offset

abbrev pub get_iso_packet_length : ℤ → Urb → Result ℤ
get_iso_packet_length index u = packet_at index u >>= λ p. ok p.packet_length

abbrev pub get_iso_packet_actual : ℤ → Urb → Result ℤ
get_iso_packet_actual index u = packet_at index u >>= λ p. ok p.packet_actual

abbrev pub get_iso_packet_status : ℤ → Urb → Result ℤ
get_iso_packet_status index u = packet_at index u >>= λ p. ok p.status

-- The buffer from the packet's offset on.
unfoldable pub get_iso_packet_buffer : ℤ → Urb → Result (List ℕ)
get_iso_packet_buffer index u = packet_at index u >>= λ p. elim u.buffer [
  | none ↦ undefined
  | some bytes ↦ if ltb (length bytes) p.offset then undefined else ok (drop p.offset bytes)
]

-- An assignment to a member of `_urb.iso_packets[index]`.
unfoldable pub update_packet : (IsoPacket → IsoPacket) → ℤ → Urb → Result Urb
update_packet f (negsuc n) u = undefined
update_packet f (pos n) u = elim (get_elem? (pointee u.iso_packets) n) [
  | none ↦ undefined
  | some p ↦ ok (record u { iso_packets = some (set (pointee u.iso_packets) n (f p)) })
]

abbrev pub set_iso_status : ℤ → ℤ → Urb → Result Urb
set_iso_status index value = update_packet (λ p. record p { status = value }) index

abbrev pub ack_iso : ℤ → Urb → Result Urb
ack_iso index = set_iso_status index Status.success

abbrev pub stall_iso : ℤ → Urb → Result Urb
stall_iso index = set_iso_status index Status.stall

abbrev pub set_iso_packet_actual : ℤ → ℤ → Urb → Result Urb
set_iso_packet_actual index value = update_packet (λ p. record p { packet_actual = value }) index
