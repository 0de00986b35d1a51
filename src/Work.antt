-- ===== src/Work.antt =====
-- src/work.cpp and the classes `work`, `process_urb_work`, `cancel_urb_work` and `port_stat_work`
-- of src/libusb_vhci.h. A work object lives in a store and is named by its address.
pub mod Copying
use usb_vhci_libusb.Prelude.{ℕ, Bool, true, false, ◌==◌, if◌then◌else◌, Option, none, some}
use usb_vhci_libusb.Kernel.{Header}
use usb_vhci_libusb.PortStat.{PortStat}
use usb_vhci_libusb.PortStat.Triggers.{trigger_flags}
use usb_vhci_libusb.Urb.{Urb}
use usb_vhci_libusb.Outcome.{Exception, invalid_argument}

-- The three subclasses, each with its own members. A `process_urb_work` owns its URB.
pub data Kind : Type 0 where
  process_urb_work : Urb → Kind
  cancel_urb_work : ℕ → Kind
  port_stat_work : PortStat → ℕ → Kind

pub record Work : Type 0 where
  pub port : ℕ
  pub canceled : Bool
  pub kind : Kind

pub data Constructed : Type 0 where
  object : Work → Constructed
  refused : Exception → Constructed

-- `work::work`, which every subclass calls first.
abbrev new_work : ℕ → Kind → Constructed
new_work port kind =
    if port == 0
    then refused invalid_argument
    else object (record { port = port; canceled = false; kind = kind })

-- The pointer argument may be NULL.
unfoldable pub new_process_urb_work : ℕ → Option Urb → Constructed
new_process_urb_work port none = refused invalid_argument
new_process_urb_work port (some urb) = new_work port (process_urb_work urb)

unfoldable pub new_cancel_urb_work : ℕ → ℕ → Constructed
new_cancel_urb_work port handle = new_work port (cancel_urb_work handle)

unfoldable pub new_port_stat_work : Header → ℕ → PortStat → PortStat → Constructed
new_port_stat_work k port stat prev =
    new_work port (port_stat_work stat (trigger_flags k stat prev))

-- Without a previous state nothing is triggered.
unfoldable pub new_first_port_stat_work : ℕ → PortStat → Constructed
new_first_port_stat_work port stat = new_work port (port_stat_work stat 0)

-- `work::cancel`.
abbrev pub cancel : Work → Work
cancel w = record w { canceled = true }

-- The store of the objects that `new` has made and `delete` has not yet destroyed.
abbrev pub Store : Type 0
Store = ℕ → Option Work

abbrev pub put : Store → ℕ → Option Work → Store
put store p v q = if p == q then v else store q

-- How often an address stands for a live object: once or not at all.
abbrev pub held : Option Work → ℕ
held none = 0
held (some w) = 1
