-- ===== src/Example/Events.antt =====
-- What the example does with the works of the kernel.
use usb_vhci_libusb.Prelude.{
  ℕ, ◌%◌, ◌^◌, ◌≡◌, ◌≢◌, refl, Bool, true, false, ◌==◌, ltb, arith, if◌then◌else◌, none, some, List,
  pos, Bool-cases, inl, inr,
}
use usb_vhci_libusb.Errno.{Errno}
use usb_vhci_libusb.Kernel.{Header}
use usb_vhci_libusb.Status
use usb_vhci_libusb.PortStat.{
  PortStat, get_connection_changed, get_reset_changed, get_reset, get_enable,
}
use usb_vhci_libusb.Urb.{Urb, is_iso}
use usb_vhci_libusb.Device.{failed}
use usb_vhci_libusb.Device.Fetch.{fetch_data}
use usb_vhci_libusb.Device.Giveback.{plain_giveback, giveback_request}
use usb_vhci_libusb.Device.Port.{PortCall}
use usb_vhci_libusb.LocalHcd.Background.{update_port}
use usb_vhci_libusb.Example.{
  State, Arrays, with_buffers, respond, load_urb, answer_urb, is_set_address, port_event, urb_event,
}

-- After a port event the example's variable `adr` is what `local_hcd` records for the port: 0xff if
-- the connection changed, 0 after a reset that enabled the port, and else as before.
port_event-update_port :
    (k : Header) (accepts : PortCall → Bool) (ps : PortStat) (s : State)
    → (port_event k accepts 1 ps s).2.adr
      ≡ (update_port ps (record { adr = s.adr; stat = s.stat })).adr
unfolding port_event update_port get_connection_changed get_reset_changed get_reset get_enable
port_event-update_port k accepts ps s = refl

-- A failed FETCHDATA for a URB with a buffer leads to undefined behaviour, since the buffer is
-- freed and then used and freed again.
urb_event-failed_data :
    (e : Errno) (k : Header) (a : Arrays) (u : Urb) (s : State) (bytes : List ℕ) (code : ℕ)
    → u.devadr ≡ s.adr
    → u.buffer_length ≢ pos 0
    → a.bytes ≡ some bytes
    → a.reply ≡ failed code
    → urb_event e k a true u s ≡ none
unfolding urb_event load_urb fetch_data
urb_event-failed_data e k a u s bytes code mine full got fails = ground arith

respond-set_address :
    (k : Header) (u : Urb) (adr : ℕ)
    → is_set_address k u ≡ true
    → respond k u adr
      ≡ some (
        record u { status = if ltb 0x7f u.w_value then Status.stall else Status.success },
        if ltb 0x7f u.w_value then adr else u.w_value,
      )
unfolding respond
respond-set_address k u adr asks = elim (Bool-cases (ltb 0x7f u.w_value)) [
  | inl large ↦ rw (asks, large) refl
  | inr small ↦ rw (asks, small) (rw (low small) refl)
]
  where
    low : ltb 0x7f u.w_value ≡ false → u.w_value % 2 ^ 8 ≡ u.w_value
    low small = ground arith

answer_urb-set_address :
    (e : Errno) (k : Header) (malloc : Bool) (s : State) (u : Urb)
    → is_set_address k u ≡ true
    → is_iso k u.type ≡ false
    → answer_urb e k malloc s u
      ≡ some (
        record s { adr = if ltb 0x7f u.w_value then s.adr else u.w_value },
        some (
            plain_giveback e k
              (record u { status = if ltb 0x7f u.w_value then Status.stall else Status.success })),
      )
unfolding answer_urb giveback_request
answer_urb-set_address e k malloc s u asks plain =
    rw (respond-set_address k u s.adr asks, answer_urb) (rw plain refl)

-- A SET_ADDRESS for the device, without data, is given back at once with what is known of it: an
-- address above 0x7f is stalled and the device keeps its address, any other is acknowledged and
-- becomes the device's address. The URB must not be isochronous.
urb_event-set_address :
    (e : Errno) (k : Header) (a : Arrays) (u : Urb) (s : State)
    → u.devadr ≡ s.adr
    → is_set_address k u ≡ true
    → is_iso k u.type ≡ false
    → urb_event e k a false u s
      ≡ some (
        record s { adr = if ltb 0x7f u.w_value then s.adr else u.w_value },
        some (
            plain_giveback e k (record (with_buffers a u) {
              status = if ltb 0x7f u.w_value then Status.stall else Status.success;
            })),
      )
unfolding urb_event load_urb is_set_address
urb_event-set_address e k a u s mine asks plain =
    rw test (answer_urb-set_address e k a.malloc s (with_buffers a u) asks plain)
  where
    test : (u.devadr == s.adr) ≡ true
    test = ground (arith, mine)
