-- ===== src/Example/Main.antt =====
-- `main` of examples/virtual_device2.c: the endless loop that fetches a work and deals with it.
-- `main_loop` is the loop for as many turns as are given, since each turn meets other answers.
pub mod Serving
pub mod Attends
use usb_vhci_libusb.Prelude.{
  Bool, true, false, ◌==◌, if◌then◌else◌, Option, none, some, List, [], ◌∷◌, ◌++◌, map, ℤ, ◌==ℤ◌,
}
use usb_vhci_libusb.Errno.{Errno}
use usb_vhci_libusb.Kernel.{Header}
use usb_vhci_libusb.PortStat.{no_stat}
use usb_vhci_libusb.Device.{Reply, Returned, minus_one}
use usb_vhci_libusb.Device.Fetch.{
  IocWork, UsbWork, port_stat_payload, urb_payload, handle_payload, fetch_work, nonzero,
}
use usb_vhci_libusb.Device.Giveback.{IocGiveback}
use usb_vhci_libusb.Device.Open.{Opened}
use usb_vhci_libusb.Device.Port.{PortCall}
use usb_vhci_libusb.Example.{State, Arrays, port_event, urb_event}

-- What one turn meets: the structure `w` before it is filled, the kernel's answers to FETCHWORK and
-- to the port calls, and what a URB meets. The first two depend on the descriptor.
pub record Turn : Type 0 where
  pub before : UsbWork
  pub ioctl : ℤ → ℤ → Reply IocWork
  pub accepts : ℤ → PortCall → Bool
  pub arrays : Arrays

-- A request that the program sends to the kernel.
pub data Sent : Type 0 where
  port_sent : PortCall → Sent
  giveback_sent : IocGiveback → Sent

-- Where the program is: still in its loop, ended with the exit code 1, or undefined behaviour.
pub data Run : Type 0 where
  running : List Sent → State → Run
  exited : List Sent → Run
  undefined : Run

abbrev pub sent_back : Option IocGiveback → List Sent
sent_back none = []
sent_back (some gb) = giveback_sent gb ∷ []

module _ (e : Errno) (k : Header) (fd : ℤ) where
  -- The `switch` on the type of the fetched work. The member of the union that a case reads must be
  -- the one that was written.
  unfoldable pub handle_work : Turn → ℤ → UsbWork → State → Run
  handle_work t res w s =
      if w.type == k.work_type_port_stat
      then elim (w.payload) [
        | port_stat_payload index ps ↦
            let after = port_event k (t.accepts fd) index ps s in
            if after.0
            then running (map port_sent after.1) (after.2)
            else exited (map port_sent after.1)
        | other ↦ undefined
      ]
      else if w.type == k.work_type_process_urb
      then elim (w.payload) [
        | urb_payload u ↦ elim (urb_event e k (t.arrays) (nonzero res) u s) [
          | none ↦ undefined
          | some (later, given) ↦ running (sent_back given) later
        ]
        | other ↦ undefined
      ]
      else if w.type == k.work_type_cancel_urb
      then running [] s
      else exited []

  -- A failed FETCHWORK is reported, and the loop goes on.
  unfoldable pub turn : Turn → State → Run
  unfolding handle_work
  turn t s =
      let r = fetch_work e k (t.ioctl fd) (t.before) in
      if r.value ==ℤ minus_one then running [] s else handle_work t (r.value) (r.output) s

  abbrev pub prepend : List Sent → Run → Run
  prepend out (running more s) = running (out ++ more) s
  prepend out (exited more) = exited (out ++ more)
  prepend out undefined = undefined

  pub main_loop : List Turn → State → Run
  main_loop [] s = running [] s
  main_loop (t ∷ turns) s = elim (turn t s) [
    | running out later ↦ prepend out (main_loop turns later)
    | exited out ↦ exited out
    | undefined ↦ undefined
  ]

-- The variables before the loop.
abbrev pub initial : State
initial = record { stat = no_stat; adr = 0xff }

-- `opened` is what `usb_vhci_open` returned; the descriptor is not tested.
unfoldable pub main : Errno → Header → Returned Opened → List Turn → Run
unfolding main_loop
main e k opened turns = main_loop e k (opened.value) turns initial
