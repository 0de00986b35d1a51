-- ===== src/Device/Giveback.antt =====
-- `usb_vhci_giveback` of src/libusb_vhci.c.
pub mod Laws
use usb_vhci_libusb.Prelude.{
  ℕ, zero, suc, ◌-◌, ◌%◌, ◌^◌, Bool, true, false, ◌&&◌, not, ◌==◌, if◌then◌else◌, Option, none,
  some, List, [], ◌∷◌, ℤ, pos, negsuc, pos_part, is_positive,
}
use usb_vhci_libusb.Errno.{Errno}
use usb_vhci_libusb.Kernel.{Header}
use usb_vhci_libusb.Status.{to_errno, to_iso_packets_errno}
use usb_vhci_libusb.Urb.{Urb, IsoPacket, is_in, is_iso}
use usb_vhci_libusb.Device.{Reply, answer, failed, Returned, fails}

-- `struct usb_vhci_ioc_iso_packet_giveback`.
pub record IocIsoGiveback : Type 0 where
  pub status : ℤ
  pub packet_actual : ℕ

-- `struct usb_vhci_ioc_giveback`.
pub record IocGiveback : Type 0 where
  pub handle : ℕ
  pub status : ℤ
  pub buffer_actual : ℤ
  pub buffer : Option (List ℕ)
  pub iso_packets : Option (List IocIsoGiveback)
  pub packet_count : ℤ
  pub error_count : ℤ

-- `(uint32_t)x`.
abbrev pub u32_of : ℤ → ℕ
u32_of (pos n) = n % 2 ^ 32
u32_of (negsuc n) = 2 ^ 32 - 1 - n % 2 ^ 32

abbrev pub give_packet : Errno → IsoPacket → IocIsoGiveback
give_packet e p = record {
  status = to_iso_packets_errno e p.status;
  packet_actual = u32_of p.packet_actual;
}

-- The loop over the packets; `none` is an access out of range.
give_packets : Errno → ℕ → List IsoPacket → Option (List IocIsoGiveback)
give_packets e zero ps = some []
give_packets e (suc n) [] = none
give_packets e (suc n) (p ∷ ps) = elim (give_packets e n ps) [
  | none ↦ none
  | some rest ↦ some (give_packet e p ∷ rest)
]

abbrev pub pointee : Option (List IsoPacket) → List IsoPacket
pointee none = []
pointee (some ps) = ps

-- The request before the packets are added.
abbrev pub plain_giveback : Errno → Header → Urb → IocGiveback
plain_giveback e k urb = record {
  handle = urb.handle;
  status = to_errno e urb.status (is_iso k urb.type);
  buffer_actual = urb.buffer_actual;
  buffer = if is_in urb.epadr && is_positive urb.buffer_actual then urb.buffer else none;
  iso_packets = none;
  packet_count = pos 0;
  error_count = pos 0;
}

-- The request that is sent; `none` is undefined behaviour. `malloc` says whether it gave memory;
-- its result is not checked.
unfoldable pub giveback_request : Errno → Header → Bool → Urb → Option IocGiveback
unfolding give_packets
giveback_request e k malloc urb =
    let gb = plain_giveback e k urb in
    if is_iso k urb.type
    then if is_positive urb.packet_count && not malloc
      then none
      else elim (give_packets e (pos_part urb.packet_count) (pointee urb.iso_packets)) [
        | none ↦ none
        | some ps ↦ some (record gb {
          iso_packets = if malloc then some ps else none;
          packet_count = urb.packet_count;
          error_count = urb.error_count;
        })
      ]
    else some gb

-- What is returned once the kernel has answered.
unfoldable pub giveback_result : Errno → Reply (Unit {0}) → Returned (Unit {0})
giveback_result e (failed code) =
    if code == e.ecanceled
    then record { value = pos 0; errno = some code; output = tt }
    else fails code tt
giveback_result e (answer u) = record { value = pos 0; errno = some 0; output = tt }
