-- ===== src/Example/Main/Serving.antt =====
-- A URB for the device is answered and given back.
use usb_vhci_libusb.Prelude.{
  ℕ, ◌≡◌, ◌≤◌, refl, ◌∙◌, Bool, true, false, ◌==◌, arith, Option, none, some, List, length,
  pos_part,
}
use usb_vhci_libusb.Errno.{Errno}
use usb_vhci_libusb.Kernel.{Header}
use usb_vhci_libusb.Urb.{Urb, IsoPacket}
use usb_vhci_libusb.Device.{answer}
use usb_vhci_libusb.Device.Fetch.{IocData, pointee}
use usb_vhci_libusb.Device.Fetch.Laws.{fetch_data-total}
use usb_vhci_libusb.Device.Giveback.{IocGiveback}
use usb_vhci_libusb.Device.Giveback.Laws.{giveback_request-total}
use usb_vhci_libusb.Example.{
  State, Arrays, with_buffers, urb_event, load_urb, answer_urb, is_set_address,
}
use usb_vhci_libusb.Example.Answering.{content, HasRoom, address_of, respond-Responds}

-- What a URB needs: memory, room for the bytes that it asks for, the packets that it counts, and
-- that FETCHDATA succeeds with as much.
pub record IsServed (a : Arrays) (u : Urb) : Type 0 where
  pub malloc : a.malloc ≡ true
  pub room : HasRoom (with_buffers a u)
  pub packets : pos_part u.packet_count ≤ length (pointee (with_buffers a u).iso_packets)
  pub fetched : IocData
  pub answers : a.reply ≡ answer fetched
  pub bytes : u.w_length ≤ length (content fetched.bytes)
  pub enough : pos_part u.packet_count ≤ length fetched.packets

-- The URB is given back under its handle, and decides on the device's address.
abbrev pub Serves : Header → Urb → State → Option (State × Option IocGiveback) → Type 0
Serves k u s r =
    (gb : IocGiveback) × (r ≡ some (record s { adr = address_of k u s.adr }, some gb))
    × (gb.handle ≡ u.handle)

module _ (e : Errno) (k : Header) where
  answer_urb-Serves :
      (w : Urb) (s : State)
      → HasRoom w
      → pos_part w.packet_count ≤ length (pointee w.iso_packets)
      → Serves k w s (answer_urb e k true s w)
  unfolding answer_urb
  answer_urb-Serves w s room packets =
      let (x, responds, keeps) = respond-Responds k w s.adr room in
      let (gb, gives, same) =
        giveback_request-total e k x (rw (keeps.packet_count, keeps.iso_packets) packets) in
      (gb, rw (responds, answer_urb) (rw (gives, answer_urb) refl), same ∙ keeps.handle)

  -- FETCHDATA fills the URB.
  load_urb_lem :
      (a : Arrays) (u : Urb)
      → IsServed a u
      → (bytes : Option (List ℕ)) × (ps : Option (List IsoPacket)) × (load_urb a true
            (with_buffers a u)
          ≡ some (record u { buffer = bytes; iso_packets = ps }))
        × (u.w_length ≤ length (content bytes))
        × (pos_part u.packet_count ≤ length (pointee ps))
  unfolding load_urb
  load_urb_lem a u served =
      let (ps, fetches, same) =
        fetch_data-total served.fetched (with_buffers a u) served.enough served.packets in
      (
        served.fetched.bytes,
        ps,
        rw (served.malloc, served.answers) (rw (fetches, load_urb) refl),
        served.bytes,
        rw same served.packets,
      )

  pub urb_event-Serves :
      (a : Arrays) (has_data : Bool) (u : Urb) (s : State)
      → IsServed a u
      → u.devadr ≡ s.adr
      → Serves k u s (urb_event e k a has_data u s)
  unfolding urb_event is_set_address
  urb_event-Serves a has_data u s served mine = rw test (cases has_data)
    where
      test : (u.devadr == s.adr) ≡ true
      test = ground (arith, mine)

      cases :
          (b : Bool)
          → Serves k u s
              (elim (load_urb a b (with_buffers a u))
                as (λ r. Option (State × Option IocGiveback)) [
                  | none ↦ none
                  | some w ↦ answer_urb e k a.malloc s w
                ])
      cases false =
          unfold load_urb in
          rw served.malloc (answer_urb-Serves (with_buffers a u) s served.room served.packets)
      cases true =
          let (bytes, ps, loads, room, packets) = load_urb_lem a u served in
          rw (loads, urb_event)
            (rw served.malloc
              (answer_urb-Serves (record u { buffer = bytes; iso_packets = ps }) s room packets))
