-- ===== src/Urb/Object/IsoResults.antt =====
-- `set_iso_results` sums up the packets of an isochronous URB.
use usb_vhci_libusb.Prelude.{
  ℕ, ◌+◌, ◌≡◌, ◌≤◌, refl, true, arith, if◌then◌else◌, some, List, [], ◌∷◌, length, pos, ◌==ℤ◌, ◌==◌,
}
use usb_vhci_libusb.Kernel.{Header}
use usb_vhci_libusb.Status
use usb_vhci_libusb.Urb.{Urb, IsoPacket, is_in, is_iso}
use usb_vhci_libusb.Outcome.{ok}
use usb_vhci_libusb.Urb.Object.{count_errors, set_iso_results}

-- The packets whose status is not SUCCESS.
abbrev pub failures : List IsoPacket → ℕ
failures [] = 0
failures (p ∷ ps) = (if p.status ==ℤ Status.success then 0 else 1) + failures ps

failures-le-length : (ps : List IsoPacket) → failures ps ≤ length ps
failures-le-length [] = omega arith
failures-le-length (p ∷ ps) = ground (arith, failures-le-length ps)

count_errors_lem : (ps : List IsoPacket) → count_errors (length ps) ps ≡ ok (failures ps)
unfolding count_errors
count_errors_lem [] = refl
count_errors_lem (p ∷ ps) = rw (count_errors_lem ps, count_errors) (ground arith)

-- On an isochronous URB whose count fits its packets, the error count becomes the number of failed
-- packets, which is at most the number of packets; the status becomes ALL_ISO_PACKETS_FAILED
-- exactly when every packet failed, so also when there is none, and SUCCESS otherwise; and for a
-- transfer to the host the whole buffer counts as filled.
pub set_iso_results_lem :
    (k : Header) (u : Urb) (ps : List IsoPacket)
    → is_iso k u.type ≡ true
    → u.iso_packets ≡ some ps
    → u.packet_count ≡ pos (length ps)
    → (set_iso_results k u
        ≡ ok (record u {
          error_count = pos (failures ps);
          status =
              if failures ps == length ps then Status.all_iso_packets_failed else Status.success;
          buffer_actual = if is_in u.epadr then u.buffer_length else u.buffer_actual;
        }))
      × (failures ps ≤ length ps)
unfolding set_iso_results
set_iso_results_lem k u ps iso at_packets counted =
    (ground (arith, count_errors_lem ps), failures-le-length ps)
