-- ===== src/Tests/Interface.antt =====
-- The C interface.
use usb_vhci_libusb.Prelude.{◌≡◌, refl, true, none, some, List, [], ◌∷◌, pos, has}
use usb_vhci_libusb.Errno.{linux}
use usb_vhci_libusb.Kernel.{sample, sample-IsHeader}
use usb_vhci_libusb.PortStat.{no_stat}
use usb_vhci_libusb.Urb.{Urb, IsoPacket, zeroed, is_out}
use usb_vhci_libusb.Device.{Reply, answer, returns, minus_one}
use usb_vhci_libusb.Device.Fetch.{
  IocUrb, IocWork, UsbWork, urb_payload, handle_payload, fetch_work_timeout, IocData,
}
use usb_vhci_libusb.Device.Fetch.Laws.{described, fetch_work_timeout-urb}
use usb_vhci_libusb.Device.Giveback.{giveback_request}
use usb_vhci_libusb.Device.Giveback.Laws.{sent_request, giveback_request-iso}
use usb_vhci_libusb.Device.Port.{IocPortStat, connect, port_call}
use usb_vhci_libusb.Device.Port.Laws.{port_call-sends}

-- An isochronous transfer of two packets to the host.
abbrev iso_urb : IocUrb
iso_urb = record {
  address = 5;
  endpoint = 0x81;
  type = 0;
  flags = 0;
  buffer_length = pos 16;
  interval = pos 1;
  packet_count = pos 2;
  w_value = 0;
  w_index = 0;
  w_length = 0;
  bm_request_type = 0;
  b_request = 0;
}

abbrev iso_work : IocWork
iso_work = record { type = 1; handle = 77; port = no_stat; index = 0; urb = iso_urb }

abbrev unset : UsbWork
unset = record { payload = handle_payload 0; type = 2 }

fetch_work_timeout-urb_example :
    fetch_work_timeout linux sample (answer iso_work) unset
    ≡ returns (pos 1) (record { payload = urb_payload (described sample iso_work); type = 1 })
unfolding is_out has
fetch_work_timeout-urb_example =
    fetch_work_timeout-urb linux sample iso_work unset sample-IsHeader refl refl

abbrev blank : IsoPacket
blank = record { offset = 0; packet_length = pos 0; packet_actual = pos 0; status = pos 0 }

abbrev two_packets : List IsoPacket
two_packets = blank ∷ blank ∷ []

abbrev iso_object : Urb
iso_object = record zeroed { iso_packets = some two_packets; packet_count = pos 2; epadr = 0x81 }

abbrev iso_data : IocData
iso_data = record { bytes = none; packets = (0, pos 8) ∷ (8, pos 8) ∷ [] }

giveback_request-iso_example :
    giveback_request linux sample true iso_object ≡ some (sent_request linux two_packets iso_object)
giveback_request-iso_example =
    giveback_request-iso linux sample iso_object two_packets refl refl refl

abbrev accepts : IocPortStat → Reply (Unit {0})
accepts ps = answer tt

low_speed_status :
    (port_call sample linux accepts 1 (connect 1)).output
    ≡ some (record { status = 0x0201; change = 1; index = 1; flags = 0 })
unfolding port_call
low_speed_status = refl

port_call-sends_example :
    ((port_call sample linux accepts 0 (connect 1)).output ≡ none)
    × ((port_call sample linux accepts 0 (connect 1)).value ≡ minus_one)
    × ((port_call sample linux accepts 0 (connect 1)).errno ≡ some 22)
port_call-sends_example = port_call-sends sample linux accepts 0 (connect 1)
