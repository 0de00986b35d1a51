-- ===== src/LocalHcd.antt =====
-- src/local_hcd.cpp and the class `local_hcd` of src/libusb_vhci.h: a host controller whose ports
-- the kernel module drives. Its members stand in `derived`. `given_back` is the trace of the
-- requests of `usb_vhci_giveback`.
pub mod Laws
pub mod Address
pub mod Account
pub mod Background
pub mod Lifetime
pub mod Ports
use usb_vhci_libusb.Prelude.{
  ℕ, zero, suc, ◌+◌, ◌-◌, ◌≡◌, Bool, true, false, not, ◌&&◌, ◌==◌, ltb, if◌then◌else◌, Option, none,
  some, List, [], ◌∷◌, ◌++◌, get_elem?, replicate, ℤ, pos, ◌==ℤ◌,
}
use usb_vhci_libusb.Errno.{Errno}
use usb_vhci_libusb.Kernel.{Header}
use usb_vhci_libusb.PortStat.{PortStat, no_stat}
use usb_vhci_libusb.Work.{
  Work, Store, put, process_urb_work, cancel_urb_work, port_stat_work, Constructed, object, refused,
  new_cancel_urb_work,
}
use usb_vhci_libusb.Outcome.{
  Outcome, done, throws, fault, invalid_argument, out_of_range, bad_alloc, other_exception, Method,
  ◌>>=◌, ◌>>◌,
}
use usb_vhci_libusb.Hcd.{Hcd, Virtual, construct, enqueue_work, on_work_enqueued}
use usb_vhci_libusb.Device.{Reply, Returned, minus_one}
use usb_vhci_libusb.Device.Giveback.{IocGiveback, giveback_request}
use usb_vhci_libusb.Device.Port.{IocPortStat, PortCall, port_call}

-- `_port_info`: an address of 0xff stands for none.
pub record PortInfo : Type 0 where
  pub adr : ℕ
  pub stat : PortStat

abbrev pub no_address : ℕ
no_address = 0xff

-- Its default constructor.
abbrev pub new_port : PortInfo
new_port = record { adr = no_address; stat = no_stat }

pub record Local : Type 0 where
  pub fd : ℤ
  pub id : ℤ
  pub usb_bus_num : ℤ
  pub bus_id : List ℕ
  pub port_info : List PortInfo
  pub given_back : List IocGiveback

abbrev pub LocalHcd : Type 0
LocalHcd = Hcd Local

-- What memory a call finds: the address of a new work object, or none; whether a container can
-- grow; whether `malloc` in `usb_vhci_giveback` succeeds.
pub record Memory : Type 0 where
  pub new_address : Store → Option ℕ
  pub fits : Bool
  pub malloc : Bool

-- `new` answers an address that no live object has.
abbrev pub IsFresh : Memory → Type 0
IsFresh m = (store : Store) (q : ℕ) → m.new_address store ≡ some q → store q ≡ none

unfoldable pub address_from_port : ℕ → Method LocalHcd ℕ
address_from_port port h =
    if port == 0
    then throws invalid_argument h
    else if ltb h.port_count port
    then throws out_of_range h
    else elim (get_elem? h.derived.port_info (port - 1)) [ none ↦ fault | some p ↦ done p.adr h ]

-- The loop of `port_from_address`, with `n` rounds left at index `i`; `none` is a read out of
-- range.
pub port_loop : ℕ → ℕ → ℕ → List PortInfo → Option ℕ
port_loop address zero i infos = some 0
port_loop address (suc n) i [] = none
port_loop address (suc n) i (p ∷ infos) =
    let later = port_loop address n (i + 1) infos in
    if p.adr == address then some (i + 1) else later

-- 0 stands for no port.
unfoldable pub port_from_address : ℕ → Method LocalHcd ℕ
unfolding port_loop
port_from_address address h =
    if ltb 0x7f address
    then throws invalid_argument h
    else elim (port_loop address h.port_count 0 h.derived.port_info) [
      | none ↦ fault
      | some port ↦ done port h
    ]

-- `enqueue_work(cw)`, and on an exception `delete cw` before it is thrown on.
enqueue_or_delete : Bool → ℕ → Method LocalHcd (Unit {0})
enqueue_or_delete fits q h = elim (enqueue_work fits q h) [
  | done _ t ↦ done tt t
  | throws x t ↦ throws x (record t { store = put t.store q none })
  | fault ↦ fault
]

pub report : Memory → ℕ → ℕ → Method LocalHcd (Unit {0})
unfolding enqueue_or_delete
report m port handle h = elim (m.new_address h.store) [
  | none ↦ throws bad_alloc h
  | some q ↦ elim (new_cancel_urb_work port handle) [
    | refused x ↦ throws x h
    | object cw ↦
        (enqueue_or_delete m.fits q >> on_work_enqueued)
          (record h { store = put h.store q (some cw) })
  ]
]

-- A canceled URB that the client is working on is reported to it by a new work.
unfoldable pub canceling_work : Memory → ℕ → Bool → Method LocalHcd (Unit {0})
unfolding report
canceling_work m w in_progress h =
    if in_progress
    then elim (h.store w) [
      | none ↦ fault
      | some o ↦ elim o.kind [
        | process_urb_work urb ↦ report m o.port urb.handle h
        | cancel_urb_work _ ↦ done tt h
        | port_stat_work _ _ ↦ done tt h
      ]
    ]
    else done tt h

-- The result of `usb_vhci_giveback` is not used.
unfoldable pub finishing_work : Errno → Header → Memory → ℕ → Method LocalHcd (Unit {0})
finishing_work e k m w h = elim (h.store w) [
  | none ↦ fault
  | some o ↦ elim o.kind [
    | process_urb_work urb ↦ elim (giveback_request e k m.malloc urb) [
      | none ↦ fault
      | some gb ↦ done tt (record h {
        derived = record (h.derived) { given_back = h.derived.given_back ++ gb ∷ [] };
      })
    ]
    | cancel_urb_work _ ↦ done tt h
    | port_stat_work _ _ ↦ done tt h
  ]
]

abbrev pub local : Errno → Header → Memory → Virtual Local
local e k m = record { canceling_work = canceling_work m; finishing_work = finishing_work e k m }

unfoldable pub get_port_stat : ℕ → Method LocalHcd PortStat
get_port_stat port h =
    if port == 0
    then throws invalid_argument h
    else if ltb h.port_count port
    then throws out_of_range h
    else elim (get_elem? h.derived.port_info (port - 1)) [ none ↦ fault | some p ↦ done p.stat h ]

-- The methods `port_connect` to `port_reset_done`: the port is checked, then the function of the C
-- interface is called. Its request, if it sends one, is the result.
unfoldable pub port_method :
    Errno
    → Header
    → (IocPortStat → Reply (Unit {0}))
    → ℕ
    → PortCall
    → Method LocalHcd (Option IocPortStat)
port_method e k reply port c h =
    if port == 0
    then throws invalid_argument h
    else if ltb h.port_count port
    then throws out_of_range h
    else let r = port_call k e reply port c in
      if r.value ==ℤ minus_one then throws other_exception h else done r.output h
