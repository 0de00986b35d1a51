-- ===== src/Status.antt =====
-- src/libusb_vhci.h (the status codes) and the conversions between them and errno values at the
-- end of src/libusb_vhci.c. The caller's boolean `iso_urb` says whether the URB is isochronous.
pub mod RoundTrip
pub mod Success
use usb_vhci_libusb.Prelude.{ℕ, Bool, true, false, List, [], ◌∷◌, if◌then◌else◌}
use usb_vhci_libusb.Prelude.{ℤ, pos, neg, switch}
use usb_vhci_libusb.Errno.{Errno}

abbrev pub success : ℤ
success = pos 0x00000000

abbrev pub pending : ℤ
pending = pos 0x10000001

abbrev pub short_packet : ℤ
short_packet = pos 0x10000002

abbrev pub error : ℤ
error = pos 0x7ff00000

abbrev pub canceled : ℤ
canceled = pos 0x30000001

abbrev pub timedout : ℤ
timedout = pos 0x30000002

abbrev pub device_disabled : ℤ
device_disabled = pos 0x71000001

abbrev pub device_disconnected : ℤ
device_disconnected = pos 0x71000002

abbrev pub bit_stuff : ℤ
bit_stuff = pos 0x72000001

abbrev pub crc : ℤ
crc = pos 0x72000002

abbrev pub no_response : ℤ
no_response = pos 0x72000003

abbrev pub babble : ℤ
babble = pos 0x72000004

abbrev pub stall : ℤ
stall = pos 0x74000001

abbrev pub buffer_overrun : ℤ
buffer_overrun = pos 0x72100001

abbrev pub buffer_underrun : ℤ
buffer_underrun = pos 0x72100002

abbrev pub all_iso_packets_failed : ℤ
all_iso_packets_failed = pos 0x78000001

module _ (e : Errno) where
  abbrev to_errno_cases : Bool → List (ℤ × ℤ)
  to_errno_cases iso =
      (success, pos 0)
      ∷ (pending, neg e.einprogress)
      ∷ (short_packet, neg e.eremoteio)
      ∷ (error, if iso then neg e.exdev else neg e.eproto)
      ∷ (canceled, neg e.econnreset)
      ∷ (timedout, neg e.etimedout)
      ∷ (device_disabled, neg e.eshutdown)
      ∷ (device_disconnected, neg e.enodev)
      ∷ (bit_stuff, neg e.eproto)
      ∷ (crc, neg e.eilseq)
      ∷ (no_response, neg e.etime)
      ∷ (babble, neg e.eoverflow)
      ∷ (stall, neg e.epipe)
      ∷ (buffer_overrun, neg e.ecomm)
      ∷ (buffer_underrun, neg e.enosr)
      ∷ (all_iso_packets_failed, if iso then neg e.einval else neg e.eproto)
      ∷ []

  unfoldable pub to_errno : ℤ → Bool → ℤ
  to_errno status iso = switch status (to_errno_cases iso) (neg e.eproto)

  abbrev from_errno_cases : Bool → List (ℤ × ℤ)
  from_errno_cases iso =
      (neg 0, success)
      ∷ (neg e.einprogress, pending)
      ∷ (neg e.eremoteio, short_packet)
      ∷ (neg e.enoent, canceled)
      ∷ (neg e.econnreset, canceled)
      ∷ (neg e.etimedout, timedout)
      ∷ (neg e.eshutdown, device_disabled)
      ∷ (neg e.enodev, device_disconnected)
      ∷ (neg e.eproto, bit_stuff)
      ∷ (neg e.eilseq, crc)
      ∷ (neg e.etime, no_response)
      ∷ (neg e.eoverflow, babble)
      ∷ (neg e.epipe, stall)
      ∷ (neg e.ecomm, buffer_overrun)
      ∷ (neg e.enosr, buffer_underrun)
      ∷ (neg e.einval, if iso then all_iso_packets_failed else error)
      ∷ []

  unfoldable pub from_errno : ℤ → Bool → ℤ
  from_errno errno iso = switch errno (from_errno_cases iso) error

  -- A packet of an isochronous URB is converted as if it were no isochronous URB.
  unfoldable pub to_iso_packets_errno : ℤ → ℤ
  to_iso_packets_errno status = to_errno status false

  unfoldable pub from_iso_packets_errno : ℤ → ℤ
  from_iso_packets_errno errno = from_errno errno false
