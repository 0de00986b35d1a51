-- ===== src/ExampleCpp/Answers.antt =====
-- The two examples answer alike.
use usb_vhci_libusb.Prelude.{ℕ, ◌≡◌, refl, not, ◌&&◌, ◌==◌, arith, if◌then◌else◌, has, some, List}
use usb_vhci_libusb.Kernel.{Header}
use usb_vhci_libusb.Urb.{Urb, is_control}
use usb_vhci_libusb.Urb.Object.Members.{endpoint_number, ack}
use usb_vhci_libusb.Example
use usb_vhci_libusb.ExampleCpp.{copy_desc, get_descriptor, process_urb}

-- The URB's type and packets are not touched.
pub record Keeps (u v : Urb) : Type 0 where
  pub same_type : v.type ≡ u.type
  pub same_packets : v.iso_packets ≡ u.iso_packets
  pub same_count : v.packet_count ≡ u.packet_count
  pub same_handle : v.handle ≡ u.handle

pub process_urb-Keeps : (k : Header) (u v : Urb) → process_urb k u ≡ some v → Keeps u v
unfolding process_urb get_descriptor copy_desc
process_urb-Keeps k u v e = record {
  same_type = ground arith;
  same_packets = ground arith;
  same_count = ground arith;
  same_handle = ground arith;
}

copy_desc_lem :
    (size : ℕ) (desc : List ℕ) (u : Urb)
    → copy_desc size desc u ≡ Example.send_descriptor size desc u
unfolding copy_desc Example.send_descriptor
copy_desc_lem size desc u = refl

get_descriptor_lem : (u : Urb) → get_descriptor u ≡ Example.get_descriptor u
unfolding get_descriptor Example.get_descriptor copy_desc Example.send_descriptor
    Example.send_string
get_descriptor_lem u = ground arith

-- The C++ example answers a URB as the C example does, except that it acknowledges a SET_ADDRESS,
-- which the C example answers elsewhere: for every endpoint address of which the low three bits are
-- 0 exactly if the low seven are.
pub process_urb_agrees :
    (k : Header) (u : Urb)
    → (endpoint_number u == 0) ≡ not (has u.epadr 0x7f)
    → process_urb k u ≡ (
        if is_control k u.type
          && (not (has u.epadr 0x7f) && (u.bm_request_type == 0 && u.b_request == 5))
        then some (ack u)
        else Example.process_urb k u)
unfolding process_urb Example.process_urb
process_urb_agrees k u ends = ground (arith, get_descriptor_lem u)
