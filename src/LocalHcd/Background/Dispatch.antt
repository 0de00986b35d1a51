-- ===== src/LocalHcd/Background/Dispatch.antt =====
-- `local_hcd::bg_work` as a whole: one work is fetched from the kernel and dealt with by its kind.
use usb_vhci_libusb.Prelude.{if◌then◌else◌, none, some, List, ◌==ℤ◌, ℤ}
use usb_vhci_libusb.Errno.{Errno}
use usb_vhci_libusb.Kernel.{Header}
use usb_vhci_libusb.Outcome.{done, throws, fault}
use usb_vhci_libusb.Hcd.{cancel_process_urb_work}
use usb_vhci_libusb.Device.{Reply, minus_one}
use usb_vhci_libusb.Device.Fetch.{
  IocWork, UsbWork, port_stat_payload, urb_payload, handle_payload, fetch_work,
}
use usb_vhci_libusb.LocalHcd.{LocalHcd, Memory, local}
use usb_vhci_libusb.LocalHcd.Background.Rounds.{Waits, UrbRetry, urb_rounds}
use usb_vhci_libusb.LocalHcd.Background.{Round, Ending, handled, crashed, port_stat_event, UrbRound}

-- What one call meets.
pub record Surroundings : Type 0 where
  pub memory : Memory
  pub rounds : List Round
  pub waits : Waits
  pub round : UrbRound
  pub retries : List UrbRetry

-- The `switch` on the type, which tells the member of the union. An exception that leaves
-- `cancel_process_urb_work` terminates the process.
unfoldable pub dispatch : Errno → Header → Surroundings → ℤ → UsbWork → LocalHcd → Ending × LocalHcd
dispatch e k x res work h = elim work.payload [
  | port_stat_payload index ps ↦ elim (port_stat_event k index ps x.memory x.rounds h) [
    | none ↦ (handled, h)
    | some ending ↦ ending
  ]
  | urb_payload u ↦ urb_rounds k x.waits x.round (record { puw = none; res = res }) u x.retries h
  | handle_payload handle ↦ elim (cancel_process_urb_work (local e k x.memory) handle h) [
    | done in_progress t ↦ (handled, t)
    | throws exception t ↦ (crashed, t)
    | fault ↦ (crashed, h)
  ]
]

-- `ioctl` is what the kernel answers; `work` stands for the structure before it is filled.
unfoldable pub bg_work :
    Errno → Header → Surroundings → (ℤ → Reply IocWork) → UsbWork → LocalHcd → Ending × LocalHcd
bg_work e k x ioctl work h =
    let r = fetch_work e k ioctl work in
    if r.value ==ℤ minus_one then (handled, h) else dispatch e k x r.value r.output h
