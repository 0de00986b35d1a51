-- ===== src/LocalHcd/Lifetime.antt =====
-- The constructor and the destructor of `local_hcd` in src/local_hcd.cpp: the descriptor, the
-- ports' records and the background thread.
pub mod Ways
pub mod Creation
pub mod Destruction
use usb_vhci_libusb.Prelude.{
  ℕ, zero, suc, ◌≡◌, Bool, true, false, not, ◌==◌, if◌then◌else◌, Option, none, some, List, [], ◌∷◌,
  ◌++◌, replicate, take, ℤ, pos, negsuc, ◌==ℤ◌,
}
use usb_vhci_libusb.Outcome.{
  Outcome, done, throws, fault, Exception, invalid_argument, bad_alloc, other_exception,
}
use usb_vhci_libusb.Device.{Reply, Returned, minus_one}
use usb_vhci_libusb.Device.Open.{
  SystemCall, Kernel, Wanted, Opened, strlen, usb_vhci_open, usb_vhci_close,
}
use usb_vhci_libusb.Hcd.{Hcd, construct, destroy}
use usb_vhci_libusb.Hcd.Thread.{Control, no_thread, init_bg_thread, begin_join, end_join}
use usb_vhci_libusb.LocalHcd.{Local, LocalHcd, new_port}

-- What the constructor finds: the kernel, memory for `bus_id` and for `port_info`, and the answer
-- of `pthread_create`.
pub record Supplies : Type 0 where
  pub sys : Kernel
  pub assigns : Bool
  pub allocates : Bool
  pub create : Reply ℕ

-- A controller with its thread, or an exception, and in both cases the system calls that were made.
pub data Created : Type 0 where
  created : LocalHcd → Control → List SystemCall → Created
  not_created : Exception → List SystemCall → Created

-- The members before the descriptor is opened.
abbrev pub unopened : Local
unopened = record {
  fd = minus_one;
  id = pos 0;
  usb_bus_num = pos 0;
  bus_id = [];
  port_info = [];
  given_back = [];
}

-- `bus_id.assign(_bus_id)`: the bytes before the first 0; `none` if there is no 0.
unfoldable pub assign : List ℕ → Option (List ℕ)
assign string = elim (strlen string) [ none ↦ none | some n ↦ some (take n string) ]

abbrev pub everything : Wanted
everything = record { id = true; usb_busnum = true; bus_id = true }

-- What an output parameter holds, that is set if the call succeeds.
abbrev pub output : ℤ → Option ℤ → ℤ
output before none = before
output before (some z) = z

-- The constructor after `bus_id` is set.
unfoldable pub create_ports : Supplies → LocalHcd → Returned Opened → List ℕ → Option Created
create_ports sup h r bus_id =
    if sup.allocates
    then elim (init_bg_thread sup.create no_thread) [
      | done _ c ↦ some (
          created
            (record h {
              derived = record {
                fd = r.value;
                id = output (pos 0) r.output.id;
                usb_bus_num = output (pos 0) r.output.usb_busnum;
                bus_id = bus_id;
                port_info = replicate h.port_count new_port;
                given_back = [];
              };
            })
            c r.output.calls)
      | throws x _ ↦ some (not_created x r.output.calls)
      | fault ↦ none
    ]
    else some (not_created bad_alloc r.output.calls)

-- `none` is undefined behaviour, or fuel run out in `usb_vhci_close`. If an exception is thrown,
-- the members and the base class are destroyed, but ~local_hcd is not run.
unfoldable pub construct_local : ℕ → ℕ → Supplies → ℕ → Option Created
unfolding create_ports
construct_local eintr fuel sup ports = elim (construct ports unopened) [
  | none ↦ some (not_created invalid_argument [])
  | some h ↦ elim (usb_vhci_open eintr fuel sup.sys everything h.port_count) [
    | none ↦ none
    | some r ↦
        if r.value ==ℤ minus_one
        then some (not_created other_exception r.output.calls)
        else elim r.output.bus_id [
          | none ↦ create_ports sup h r []
          | some string ↦
              if sup.assigns
              then elim (assign string) [ none ↦ none | some bus_id ↦ create_ports sup h r bus_id ]
              else some (not_created bad_alloc r.output.calls)
        ]
  ]
]

-- `join_bg_thread`, when the thread has ended.
unfoldable pub join_bg_thread : Control → Control
join_bg_thread c = elim (begin_join c) [ none ↦ c | some d ↦ end_join d ]

-- The destructors of `local_hcd` and of `hcd`, in this order: what is left, and the result of
-- `usb_vhci_close`. A controller that was constructed has opened its descriptor, so it is not
-- negative.
unfoldable pub destroy_local :
    ℕ
    → ℕ
    → (ℕ → Reply (Unit {0}))
    → LocalHcd
    → Control
    → Option (Returned (List SystemCall) × Control × Outcome LocalHcd (Unit {0}))
unfolding join_bg_thread
destroy_local eintr fuel replies h c = elim h.derived.fd [
  | negsuc _ ↦ none
  | pos fd ↦ elim (usb_vhci_close eintr fuel fd replies) [
    | none ↦ none
    | some r ↦ some (
      r,
      join_bg_thread (join_bg_thread c),
      destroy (record h { derived = record (h.derived) { port_info = [] } }),
    )
  ]
]
