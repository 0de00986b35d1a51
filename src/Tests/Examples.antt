-- ===== src/Tests/Examples.antt =====
-- The example's device.
use usb_vhci_libusb.Prelude.{ℕ, ◌≡◌, refl, arith, some, [], ◌∷◌, pos, replicate, has}
use usb_vhci_libusb.Kernel.{sample}
use usb_vhci_libusb.Status
use usb_vhci_libusb.PortStat.{PortStat, no_stat}
use usb_vhci_libusb.Urb.{Urb, zeroed}
use usb_vhci_libusb.Example.{State, process_urb}
use usb_vhci_libusb.Example.Laws.{Asks, process_urb-descriptor}

-- A request for up to four bytes of a descriptor.
abbrev asking : ℕ → Urb
asking value = record zeroed {
  type = 2;
  epadr = 0x80;
  bm_request_type = 0x80;
  b_request = 6;
  w_value = value;
  w_length = 4;
  buffer = some (replicate 4 0xaa);
  buffer_length = pos 4;
}

asking-Asks : Asks sample (asking 0x0100) 1
unfolding has
asking-Asks = record {
  control = refl;
  endpoint = refl;
  to_host = refl;
  request = refl;
  of_kind = refl;
}

process_urb-descriptor_example :
    process_urb sample (asking 0x0100)
    ≡ some (record (asking 0x0100) {
      buffer = some (18 ∷ 1 ∷ 0 ∷ 2 ∷ []);
      buffer_actual = pos 4;
      status = Status.success;
    })
process_urb-descriptor_example =
    process_urb-descriptor sample (asking 0x0100) 1 _ (replicate 4 0xaa) asking-Asks refl refl
      (omega arith)

abbrev reset : PortStat
reset = record { status = 0x0103; change = 0x0010; flags = 0 }

abbrev fresh : State
fresh = record { stat = no_stat; adr = 0xff }
