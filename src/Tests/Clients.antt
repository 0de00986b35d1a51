-- ===== src/Tests/Clients.antt =====
-- The example in C++.
use usb_vhci_libusb.Prelude.{◌≡◌, refl, false, not, ◌&&◌, if◌then◌else◌, has, some}
use usb_vhci_libusb.Kernel.{sample}
use usb_vhci_libusb.Urb.{Urb, zeroed, is_control}
use usb_vhci_libusb.Example
use usb_vhci_libusb.Urb.Object.Members.{ack}
use usb_vhci_libusb.ExampleCpp.{process_urb}
use usb_vhci_libusb.ExampleCpp.Answers.{process_urb_agrees}

-- A request to stall.
abbrev request : Urb
request = record zeroed { type = 2; epadr = 0x81; b_request = 9 }

process_urb_agrees_example : process_urb sample request ≡ (
    if is_control sample 2 && (not (has 0x81 0x7f) && false)
    then some (ack request)
    else Example.process_urb sample request)
unfolding has
process_urb_agrees_example = process_urb_agrees sample request refl
