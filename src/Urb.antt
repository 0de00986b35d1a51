-- ===== src/Urb.antt =====
-- src/libusb_vhci.h: `struct usb_vhci_iso_packet` and `struct usb_vhci_urb`. A pointer to an array
-- is the array, or `none` for NULL; signed fields are integers and unsigned ones natural numbers.
pub mod Object
use usb_vhci_libusb.Prelude.{ℕ, Option, none, List, Bool, ℤ, pos, ◌==◌, has, not}
use usb_vhci_libusb.Kernel.{Header}

pub record IsoPacket : Type 0 where
  pub offset : ℕ
  pub packet_length : ℤ
  pub packet_actual : ℤ
  pub status : ℤ

pub record Urb : Type 0 where
  pub handle : ℕ
  pub buffer : Option (List ℕ)
  pub iso_packets : Option (List IsoPacket)
  pub buffer_length : ℤ
  pub buffer_actual : ℤ
  pub packet_count : ℤ
  pub error_count : ℤ
  pub status : ℤ
  pub interval : ℤ
  pub flags : ℕ
  pub w_value : ℕ
  pub w_index : ℕ
  pub w_length : ℕ
  pub bm_request_type : ℕ
  pub b_request : ℕ
  pub devadr : ℕ
  pub epadr : ℕ
  pub type : ℕ

-- `memset(&urb, 0, sizeof urb)`.
abbrev pub zeroed : Urb
zeroed = record {
  handle = 0;
  buffer = none;
  iso_packets = none;
  buffer_length = pos 0;
  buffer_actual = pos 0;
  packet_count = pos 0;
  error_count = pos 0;
  status = pos 0;
  interval = pos 0;
  flags = 0;
  w_value = 0;
  w_index = 0;
  w_length = 0;
  bm_request_type = 0;
  b_request = 0;
  devadr = 0;
  epadr = 0;
  type = 0;
}

-- The macros on endpoint addresses and URB types.
unfoldable pub is_in : ℕ → Bool
is_in epadr = has epadr 0x80

unfoldable pub is_out : ℕ → Bool
unfolding is_in
is_out epadr = not (is_in epadr)

abbrev pub is_iso : Header → ℕ → Bool
is_iso k type = type == k.urb_type_iso

abbrev pub is_int : Header → ℕ → Bool
is_int k type = type == k.urb_type_int

abbrev pub is_control : Header → ℕ → Bool
is_control k type = type == k.urb_type_control

abbrev pub is_bulk : Header → ℕ → Bool
is_bulk k type = type == k.urb_type_bulk
