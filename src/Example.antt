-- ===== src/Example.antt =====
-- examples/virtual_device2.c: a program with one port, to which it connects a device that answers
-- control requests. What it prints is left out.
pub mod Laws
pub mod Events
pub mod Main
pub mod Answering
use usb_vhci_libusb.Prelude.{
  ℕ, zero, suc, ◌/◌, ◌%◌, ◌^◌, Bool, true, false, not, ◌&&◌, ◌||◌, ◌==◌, ltb, if◌then◌else◌,
  bit_and, has, Option, none, some, List, [], ◌∷◌, ◌++◌, is_some, pos, is_positive, ◌==ℤ◌,
}
use usb_vhci_libusb.Errno.{Errno}
use usb_vhci_libusb.Kernel.{Header}
use usb_vhci_libusb.Status
use usb_vhci_libusb.PortStat.{
  PortStat, c_connection, c_reset, stat_connection, stat_reset, stat_enable, stat_power,
}
use usb_vhci_libusb.Urb.{Urb, IsoPacket, is_control}
use usb_vhci_libusb.Device.{Reply, answer, failed, minus_one}
use usb_vhci_libusb.Device.Fetch.{IocData, fetch_data, nonzero}
use usb_vhci_libusb.Device.Giveback.{IocGiveback, giveback_request}
use usb_vhci_libusb.Device.Port.{PortCall, connect, reset_done, resumed, data_rate_full}

abbrev pub dev_desc : List ℕ
dev_desc =
    18 ∷ 1 ∷ 0x00 ∷ 0x02 ∷ 0 ∷ 0 ∷ 0 ∷ 64 ∷ 0xad ∷ 0xde ∷ 0xef ∷ 0xbe ∷ 0x38 ∷ 0x11 ∷ 0 ∷ 1 ∷ 0 ∷ 1
    ∷ []

abbrev pub conf_desc : List ℕ
conf_desc = 9 ∷ 2 ∷ 18 ∷ 0 ∷ 1 ∷ 1 ∷ 0 ∷ 0x80 ∷ 0 ∷ 9 ∷ 4 ∷ 0 ∷ 0 ∷ 0 ∷ 0 ∷ 0 ∷ 0 ∷ 0 ∷ []

abbrev pub str0_desc : List ℕ
str0_desc = 4 ∷ 3 ∷ 0x09 ∷ 0x04 ∷ []

-- With the zero byte that ends the literal.
abbrev pub str1_desc : List ℕ
str1_desc =
    0x1a ∷ 0x03 ∷ 72 ∷ 0 ∷ 101 ∷ 0 ∷ 108 ∷ 0 ∷ 108 ∷ 0 ∷ 111 ∷ 0 ∷ 32 ∷ 0 ∷ 87 ∷ 0 ∷ 111 ∷ 0 ∷ 114
    ∷ 0 ∷ 108 ∷ 0 ∷ 100 ∷ 0 ∷ 33 ∷ 0 ∷ []

abbrev pub rq_get_descriptor : ℕ
rq_get_descriptor = 6

abbrev pub rq_set_configuration : ℕ
rq_set_configuration = 9

abbrev pub rq_set_interface : ℕ
rq_set_interface = 11

-- `memcpy(to, from, n)`; `none` is an access out of range.
pub memcpy : ℕ → List ℕ → List ℕ → Option (List ℕ)
memcpy zero from to = some to
memcpy (suc n) [] to = none
memcpy (suc n) (x ∷ from) [] = none
memcpy (suc n) (x ∷ from) (y ∷ to) = elim (memcpy n from to) [
  | none ↦ none
  | some rest ↦ some (x ∷ rest)
]

-- Copying no byte touches no pointer.
abbrev pub copy_to : ℕ → List ℕ → Option (List ℕ) → Option (Option (List ℕ))
copy_to n from none = if n == 0 then some none else none
copy_to n from (some to) = elim (memcpy n from to) [ none ↦ none | some bytes ↦ some (some bytes) ]

-- `if(size < l) l = size; memcpy(buffer, desc, l); ...`, where `size` is what the descriptor says.
unfoldable pub send_descriptor : ℕ → List ℕ → Urb → Option Urb
unfolding memcpy
send_descriptor size desc u =
    let l = if ltb size u.w_length then size else u.w_length in
    elim (copy_to l desc u.buffer) [
      | none ↦ none
      | some buffer ↦
          some (record u { buffer = buffer; buffer_actual = pos l; status = Status.success })
    ]

abbrev pub stalled : Urb → Urb
stalled u = record u { status = Status.stall }

-- The inner `switch`, on the index of a string.
unfoldable pub send_string : Urb → Option Urb
unfolding send_descriptor
send_string u =
    if u.w_value % 2 ^ 8 == 0
    then send_descriptor 4 str0_desc u
    else if u.w_value % 2 ^ 8 == 1
    then send_descriptor 0x1a str1_desc u
    else some (stalled u)

-- The `switch` on the kind of descriptor. The case of the strings has no `break`.
unfoldable pub get_descriptor : Urb → Option Urb
unfolding send_descriptor send_string
get_descriptor u =
    if u.w_value / 2 ^ 8 == 1
    then send_descriptor 18 dev_desc u
    else if u.w_value / 2 ^ 8 == 2
    then send_descriptor 18 conf_desc u
    else if u.w_value / 2 ^ 8 == 3
    then elim (send_string u) [ none ↦ none | some v ↦ some (stalled v) ]
    else some (stalled u)

-- `none` is undefined behaviour.
unfoldable pub process_urb : Header → Urb → Option Urb
process_urb k u =
    if not (is_control k u.type)
    then some u
    else if has u.epadr 0x7f
    then some (stalled u)
    else if u.bm_request_type == 0x00 && u.b_request == rq_set_configuration
    then some (record u { status = Status.success })
    else if u.bm_request_type == 0x00 && u.b_request == rq_set_interface
    then some (record u { status = Status.success })
    else if u.bm_request_type == 0x80 && u.b_request == rq_get_descriptor
    then get_descriptor u
    else some (stalled u)

-- The variables of `main`.
pub record State : Type 0 where
  pub stat : PortStat
  pub adr : ℕ

-- The calls that a change of the port asks for, in order.
unfoldable pub port_calls : Header → PortStat → PortStat → List PortCall
port_calls k prev stat =
    (if not (has prev.status stat_power) && has stat.status stat_power
      then connect data_rate_full ∷ []
      else [])
    ++ (if not (has prev.status stat_reset)
          && has stat.status stat_reset
          && has stat.status stat_connection
        then reset_done 1 ∷ []
        else [])
    ++ (if not (has prev.flags k.flag_resuming)
          && has stat.flags k.flag_resuming
          && has stat.status stat_connection
        then resumed ∷ []
        else [])

-- Makes them until one fails: whether all succeeded, and those that were made.
pub make_calls : (PortCall → Bool) → List PortCall → Bool × List PortCall
make_calls accepts [] = (true, [])
make_calls accepts (c ∷ rest) =
    let later = make_calls accepts rest in
    if accepts c then (later.0, c ∷ later.1) else (false, c ∷ [])

-- The case USB_VHCI_WORK_TYPE_PORT_STAT: whether the program goes on, the calls and the new
-- variables.
unfoldable pub port_event :
    Header → (PortCall → Bool) → ℕ → PortStat → State → Bool × List PortCall × State
unfolding make_calls
port_event k accepts index ps s =
    if not (index == 1)
    then (false, [], s)
    else let adr = if has ps.change c_connection then 0xff else s.adr in
      let t : State = record {
        stat = ps;
        adr =
            if has ps.change c_reset
              && (not (has ps.status stat_reset) && has ps.status stat_enable)
            then 0
            else adr;
      } in
      let calls = make_calls accepts (port_calls k s.stat ps) in (calls.0, calls.1, t)

-- The test for SET_ADDRESS.
unfoldable pub is_set_address : Header → Urb → Bool
is_set_address k u =
    is_control k u.type && (not (has u.epadr 0x7f) && (u.bm_request_type == 0 && u.b_request == 5))

-- What becomes of a URB for the device: it is answered, and the device's address may change.
unfoldable pub respond : Header → Urb → ℕ → Option (Urb × ℕ)
unfolding is_set_address
respond k u adr =
    if is_set_address k u
    then if ltb 0x7f u.w_value
      then some (stalled u, adr)
      else some (record u { status = Status.success }, u.w_value % 2 ^ 8)
    else elim (process_urb k u) [ none ↦ none | some v ↦ some (v, adr) ]

-- What one URB meets: what `malloc` gives for the two arrays, whether it has memory inside the
-- library, and what FETCHDATA answers.
pub record Arrays : Type 0 where
  pub bytes : Option (List ℕ)
  pub packets : Option (List IsoPacket)
  pub malloc : Bool
  pub reply : Reply IocData

abbrev pub with_buffers : Arrays → Urb → Urb
with_buffers a u = record u {
  buffer = if nonzero u.buffer_length then a.bytes else none;
  iso_packets = if nonzero u.packet_count then a.packets else none;
}

-- Fetches the data of a URB, if it has some; `none` is undefined behaviour. A failed FETCHDATA
-- frees the arrays, which are used and freed again later.
unfoldable pub load_urb : Arrays → Bool → Urb → Option Urb
load_urb a has_data v =
    if has_data
    then elim (fetch_data a.malloc a.reply v) [
      | none ↦ none
      | some r ↦
          if r.value ==ℤ minus_one && (is_some v.buffer || is_some v.iso_packets)
          then none
          else some r.output
    ]
    else some v

-- Answers a URB and gives it back.
unfoldable pub answer_urb :
    Errno → Header → Bool → State → Urb → Option (State × Option IocGiveback)
unfolding respond
answer_urb e k malloc s w = elim (respond k w s.adr) [
  | none ↦ none
  | some (x, adr) ↦ elim (giveback_request e k malloc x) [
    | none ↦ none
    | some gb ↦ some (record s { adr = adr }, some gb)
  ]
]

-- The case USB_VHCI_WORK_TYPE_PROCESS_URB: the new variables and the URB that is given back, if it
-- is for the device; `none` is undefined behaviour.
unfoldable pub urb_event :
    Errno → Header → Arrays → Bool → Urb → State → Option (State × Option IocGiveback)
unfolding load_urb answer_urb
urb_event e k a has_data u s =
    if not (u.devadr == s.adr)
    then some (s, none)
    else elim (load_urb a has_data (with_buffers a u)) [
      | none ↦ none
      | some w ↦ answer_urb e k a.malloc s w
    ]
