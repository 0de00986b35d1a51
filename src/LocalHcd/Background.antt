-- ===== src/LocalHcd/Background.antt =====
-- `local_hcd::bg_work` of src/local_hcd.cpp: the background thread fetches one work from the kernel
-- and queues it. The retries after a failed allocation are a list of rounds; in each the lock was
-- free, so the client's threads may have changed the object (`others`), and the thread may be told
-- to shut down. Until it is queued, an allocated object belongs to the call and stands in no
-- container and not in the store.
pub mod PortEvents
pub mod Retry
pub mod UrbEvents
pub mod Rounds
pub mod Patience
pub mod Dispatch
use usb_vhci_libusb.Prelude.{
  ℕ, zero, suc, ◌+◌, ◌-◌, ◌%◌, ◌^◌, Bool, true, false, not, ◌&&◌, ◌||◌, ◌==◌, ltb, if◌then◌else◌,
  bit_and, Option, none, some, List, [], ◌∷◌, get_elem?, set, ℤ, pos, ◌==ℤ◌,
}
use usb_vhci_libusb.Kernel.{Header}
use usb_vhci_libusb.Status
use usb_vhci_libusb.PortStat.{
  PortStat, get_connection_changed, get_reset_changed, get_reset, get_enable,
}
use usb_vhci_libusb.Urb.{Urb, IsoPacket, is_control}
use usb_vhci_libusb.Urb.Object.Members.{endpoint_number}
use usb_vhci_libusb.Urb.Object.{UrbMemory, from_struct_own}
use usb_vhci_libusb.Work.{Work, object, refused, new_port_stat_work, new_process_urb_work}
use usb_vhci_libusb.Outcome.{done, throws, fault, ok, raised, undefined}
use usb_vhci_libusb.Hcd.{enqueue_work, on_work_enqueued}
use usb_vhci_libusb.Hcd.Enqueue.{allocated}
use usb_vhci_libusb.Device.{Reply, Returned, minus_one}
use usb_vhci_libusb.Device.Fetch.{IocData, fetch_data, nonzero}
use usb_vhci_libusb.LocalHcd.{PortInfo, no_address, LocalHcd, Memory, port_from_address}

-- How an attempt to queue a work ends: it is done with the event, it has to be made again with the
-- object it has allocated, or the process is terminated by an exception that `throw()` forbids, or
-- by undefined behaviour.
pub data Attempt (Kept : Type 0) : Type 0 where
  finished : LocalHcd → Attempt Kept
  again : Kept → LocalHcd → Attempt Kept
  terminated : Attempt Kept

abbrev pub with_ports : (List PortInfo → List PortInfo) → LocalHcd → LocalHcd
with_ports f h = record h { derived = record (h.derived) { port_info = f h.derived.port_info } }

-- The new state of a port, with what becomes of the device's address.
unfoldable pub update_port : PortStat → PortInfo → PortInfo
update_port nps info =
    let adr = if get_connection_changed nps then no_address else info.adr in
    record {
      adr = if get_reset_changed nps && (not (get_reset nps) && get_enable nps) then 0x00 else adr;
      stat = nps;
    }

abbrev pub or_new : Option ℕ → Option ℕ → Option ℕ
or_new (some q) other = some q
or_new none other = other

-- One pass of `retry_ps`; `psw` is the object of an earlier pass.
unfoldable pub port_stat_attempt :
    Header → ℕ → PortStat → Option ℕ → Memory → LocalHcd → Attempt (Option ℕ)
port_stat_attempt k index nps psw m h = elim (get_elem? h.derived.port_info (index - 1)) [
  | none ↦ terminated
  | some info ↦ elim (or_new psw (m.new_address h.store)) [
    | none ↦ again none h
    | some q ↦ elim (new_port_stat_work k index nps info.stat) [
      | refused x ↦ terminated
      | object o ↦ elim (enqueue_work m.fits q (allocated q o h)) [
        | fault ↦ terminated
        | throws x t ↦ again (some q) h
        | done _ t ↦
            elim (on_work_enqueued
              (with_ports (λ ps. set ps (index - 1) (update_port nps info)) t)) [
                | done _ r ↦ finished r
                | throws x r ↦ terminated
                | fault ↦ terminated
              ]
      ]
    ]
  ]
]

-- What happens before a later pass of `retry_ps`, and the memory of that pass.
pub record Round : Type 0 where
  pub others : LocalHcd → LocalHcd
  pub shutdown : Bool
  pub memory : Memory

-- How the passes end: the event is dealt with, the thread was shut down, the rounds given do not
-- suffice, or the process is terminated.
pub data Ending : Type 0 where
  handled given_up still_waiting crashed : Ending

-- All passes; the rounds given are those after the first.
pub port_stat_rounds :
    Header → ℕ → PortStat → Option ℕ → Memory → List Round → LocalHcd → Ending × LocalHcd
port_stat_rounds k index nps psw m [] h = elim (port_stat_attempt k index nps psw m h) [
  | finished t ↦ (handled, t)
  | again kept t ↦ (still_waiting, t)
  | terminated ↦ (crashed, h)
]
port_stat_rounds k index nps psw m (r ∷ rounds) h = elim (port_stat_attempt k index nps psw m h) [
  | finished t ↦ (handled, t)
  | again kept t ↦
      let retried = port_stat_rounds k index nps kept r.memory rounds (r.others t) in
      if r.shutdown then (given_up, r.others t) else retried
  | terminated ↦ (crashed, h)
]

-- The case USB_VHCI_WORK_TYPE_PORT_STAT: `none` if the index names no port and nothing is done.
unfoldable pub port_stat_event :
    Header → ℕ → PortStat → Memory → List Round → LocalHcd → Option (Ending × LocalHcd)
port_stat_event k index nps m rounds h =
    if index == 0 || ltb h.port_count index
    then none
    else some (port_stat_rounds k index nps none m rounds h)

-- The test for SET_ADDRESS.
unfoldable pub is_set_address : Header → Urb → Bool
is_set_address k u =
    is_control k u.type && (endpoint_number u == 0 && (u.bm_request_type == 0 && u.b_request == 5))

-- The URB and the port's address after a SET_ADDRESS; other URBs change nothing.
unfoldable pub apply_address : Header → Urb → ℕ → Urb × ℕ
unfolding is_set_address
apply_address k u adr =
    if is_set_address k u
    then if ltb 0x7f u.w_value
      then (record u { status = Status.stall }, adr)
      else (record u { status = Status.success }, u.w_value % 2 ^ 8)
    else (u, adr)

-- What one pass of `retry_pu` meets: the content of the arrays that `new` gives, the kernel's
-- answer to FETCHDATA, and the memory for the work object.
pub record UrbRound : Type 0 where
  pub bytes : List ℕ
  pub packets : List IsoPacket
  pub urb_memory : UrbMemory
  pub reply : Reply IocData
  pub memory : Memory

-- What a pass hands to the next: the object of an earlier pass, and whether data is still to be
-- fetched.
pub record Pass : Type 0 where
  pub puw : Option ℕ
  pub res : ℤ

-- The URB with its new arrays.
abbrev pub with_arrays : UrbRound → Urb → Urb
with_arrays r u = record u {
  buffer = if nonzero u.buffer_length then some r.bytes else u.buffer;
  iso_packets = if nonzero u.packet_count then some r.packets else u.iso_packets;
}

-- Fills the URB if `res` says that there is data; `none` is undefined behaviour.
unfoldable pub load : UrbRound → ℤ → Urb → Option (Returned Urb)
load r res u =
    if nonzero res
    then fetch_data r.memory.malloc r.reply u
    else some (record { value = pos 0; errno = none; output = u })

-- Under the lock, with the device address that the kernel sent and the filled URB.
unfoldable pub queue_urb : Header → Option ℕ → Memory → ℕ → Urb → LocalHcd → Attempt Pass
unfolding apply_address
queue_urb k puw m devadr u h = elim (port_from_address devadr h) [
  | fault ↦ terminated
  | throws x t ↦ terminated
  | done index t ↦ if index == 0 then finished t else elim (or_new puw (m.new_address t.store)) [
    | none ↦ again (record { puw = none; res = pos 0 }) t
    | some q ↦ elim (get_elem? t.derived.port_info (index - 1)) [
      | none ↦ terminated
      | some info ↦
          let (u', adr) = apply_address k u info.adr in
          elim (new_process_urb_work index (some u')) [
            | refused x ↦ terminated
            | object o ↦ elim (enqueue_work m.fits q (allocated q o t)) [
              | fault ↦ terminated
              | throws x v ↦ again (record { puw = some q; res = pos 0 }) t
              | done _ v ↦
                  elim (on_work_enqueued
                    (with_ports (λ ps. set ps (index - 1) (record info { adr = adr })) v)) [
                      | done _ r ↦ finished r
                      | throws x r ↦ terminated
                      | fault ↦ terminated
                    ]
            ]
          ]
    ]
  ]
]

-- One pass of `retry_pu`. `u` is the URB that the kernel described.
unfoldable pub urb_attempt : Header → UrbRound → Pass → Urb → LocalHcd → Attempt Pass
unfolding queue_urb load
urb_attempt k r p u h = elim (from_struct_own k r.urb_memory (with_arrays r u) true) [
  | undefined ↦ terminated
  | raised x ↦ terminated
  | ok v ↦ elim (load r p.res v) [
    | none ↦ terminated
    | some fetched ↦
        if fetched.value ==ℤ minus_one
        then finished h
        else queue_urb k p.puw r.memory u.devadr fetched.output h
  ]
]
