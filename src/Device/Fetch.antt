-- ===== src/Device/Fetch.antt =====
-- `usb_vhci_fetch_work_timeout` and `usb_vhci_fetch_data` of src/libusb_vhci.c.
pub mod Laws
use usb_vhci_libusb.Prelude.{
  ℕ, zero, suc, ◌+◌, Bool, true, false, ◌||◌, ◌&&◌, not, ◌==◌, if◌then◌else◌, bit_and, bit_or,
  Option, none, some, List, [], ◌∷◌, ℤ, pos, pos_part, ◌==ℤ◌, is_positive,
}
use usb_vhci_libusb.Errno.{Errno}
use usb_vhci_libusb.Kernel.{Header}
use usb_vhci_libusb.Status
use usb_vhci_libusb.PortStat.{PortStat}
use usb_vhci_libusb.Urb.{Urb, IsoPacket, zeroed, is_out, is_iso}
use usb_vhci_libusb.Device.{Reply, answer, failed, Returned, fails, returns}

-- The members of `struct usb_vhci_ioc_urb` that the library reads.
pub record IocUrb : Type 0 where
  pub address : ℕ
  pub endpoint : ℕ
  pub type : ℕ
  pub flags : ℕ
  pub buffer_length : ℤ
  pub interval : ℤ
  pub packet_count : ℤ
  pub w_value : ℕ
  pub w_index : ℕ
  pub w_length : ℕ
  pub bm_request_type : ℕ
  pub b_request : ℕ

-- `struct usb_vhci_ioc_work`. The members of its union are fields of their own, of which the
-- library reads the one that `type` tells.
pub record IocWork : Type 0 where
  pub type : ℕ
  pub handle : ℕ
  pub port : PortStat
  pub index : ℕ
  pub urb : IocUrb

-- The union of `struct usb_vhci_work`: the member written last.
pub data Payload : Type 0 where
  handle_payload : ℕ → Payload
  urb_payload : Urb → Payload
  port_stat_payload : ℕ → PortStat → Payload

pub record UsbWork : Type 0 where
  pub payload : Payload
  pub type : ℕ

-- `x` as a truth value.
abbrev pub nonzero : ℤ → Bool
nonzero x = not (x ==ℤ pos 0)

-- The inner `switch`: what each URB type copies into the cleared URB; `none` is its default.
fill : Header → IocUrb → Option Urb
fill k w =
    if w.type == k.urb_type_iso
    then some (record zeroed { packet_count = w.packet_count; interval = w.interval })
    else if w.type == k.urb_type_int
    then some (record zeroed { interval = w.interval })
    else if w.type == k.urb_type_control
    then some (record zeroed {
      w_value = w.w_value;
      w_index = w.w_index;
      w_length = w.w_length;
      bm_request_type = w.bm_request_type;
      b_request = w.b_request;
    })
    else if w.type == k.urb_type_bulk
    then some (record zeroed {
      flags = bit_and w.flags (bit_or k.urb_flags_short_not_ok k.urb_flags_zero_packet);
    })
    else none

-- The assignments after the inner `switch`.
complete : Header → ℕ → IocUrb → Urb → Urb
complete k handle w u = record u {
  type = w.type;
  status = Status.pending;
  handle = handle;
  buffer_length = w.buffer_length;
  buffer_actual = if is_out w.endpoint || is_iso k w.type then w.buffer_length else u.buffer_actual;
  devadr = w.address;
  epadr = w.endpoint;
}

fetch_urb : Errno → Header → IocWork → UsbWork → Returned UsbWork
unfolding fill complete
fetch_urb e k w work = elim (fill k w.urb) [
  | none ↦ fails e.ebadmsg (record work { payload = urb_payload zeroed })
  | some u ↦
      let urb = complete k w.handle w.urb u in
      returns (if nonzero urb.buffer_actual || nonzero urb.packet_count then pos 1 else pos 0)
        (record { payload = urb_payload urb; type = k.work_type_process_urb })
]

-- `work` is the caller's structure before the call, the output the same after it.
unfoldable pub fetch_work_timeout : Errno → Header → Reply IocWork → UsbWork → Returned UsbWork
unfolding fetch_urb
fetch_work_timeout e k (failed code) work = fails code work
fetch_work_timeout e k (answer w) work =
    if w.type == k.work_type_port_stat
    then returns (pos 0)
        (record { payload = port_stat_payload w.index w.port; type = k.work_type_port_stat })
    else if w.type == k.work_type_process_urb
    then fetch_urb e k w work
    else if w.type == k.work_type_cancel_urb
    then returns (pos 0)
        (record { payload = handle_payload w.handle; type = k.work_type_cancel_urb })
    else fails e.ebadmsg work

-- The kernel's answer may depend on the timeout, in milliseconds.
unfoldable pub fetch_work : Errno → Header → (ℤ → Reply IocWork) → UsbWork → Returned UsbWork
fetch_work e k ioctl work = fetch_work_timeout e k (ioctl (pos 100)) work

-- What the kernel answers to FETCHDATA: the bytes for the buffer and, for each packet, its offset
-- and its length.
pub record IocData : Type 0 where
  pub bytes : Option (List ℕ)
  pub packets : List (ℕ × ℤ)

-- The loop over the packets; `none` is an access out of range.
copy_packets : ℕ → List (ℕ × ℤ) → List IsoPacket → Option (List IsoPacket)
copy_packets zero from to = some to
copy_packets (suc n) [] to = none
copy_packets (suc n) (p ∷ from) [] = none
copy_packets (suc n) ((offset, len) ∷ from) (q ∷ to) = elim (copy_packets n from to) [
  | none ↦ none
  | some rest ↦ some (
      record {
        offset = offset;
        packet_length = len;
        packet_actual = pos 0;
        status = Status.pending;
      }
      ∷ rest)
]

-- The packets that a pointer stands for: none at NULL.
abbrev pub pointee : Option (List IsoPacket) → List IsoPacket
pointee none = []
pointee (some ps) = ps

-- Writes back what the loop has stored; NULL stays NULL.
abbrev pub store_packets : Option (List IsoPacket) → List IsoPacket → Option (List IsoPacket)
store_packets none ps = none
store_packets (some old) ps = some ps

-- `malloc` says whether it gave memory. `none` is undefined behaviour.
unfoldable pub fetch_data : Bool → Reply IocData → Urb → Option (Returned Urb)
unfolding copy_packets
fetch_data malloc (failed code) urb = some (fails code urb)
fetch_data malloc (answer d) urb =
    let filled = record urb { buffer = d.bytes } in
    if is_positive urb.packet_count && not malloc
    then none
    else elim (copy_packets (pos_part urb.packet_count) d.packets (pointee urb.iso_packets)) [
      | none ↦ none
      | some ps ↦
          some (returns (pos 0) (record filled { iso_packets = store_packets urb.iso_packets ps }))
    ]
