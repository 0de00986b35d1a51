-- ===== src/Tests/Endurance.antt =====
-- A local controller meets a port event, a SET_ADDRESS, its cancelation and a client.
use usb_vhci_libusb.Prelude.{
  is_some, if◌then◌else◌, ℕ, ◌+◌, ◌≡◌, refl, true, arith, none, some, List, [], ◌∷◌, pos, inr,
}
use mathlib.Core.Option.{some-injective}
use usb_vhci_libusb.Prelude.{has}
use usb_vhci_libusb.PortStat.{get_reset_changed, get_reset, get_enable}
use usb_vhci_libusb.Work.{new_port_stat_work, new_process_urb_work}
use usb_vhci_libusb.Urb.Object.{from_struct_own, chk}
use usb_vhci_libusb.Hcd.{
  next_work, next_work_loop, enqueue_work, on_work_enqueued, cancel_process_urb_work, is_urb,
}
use usb_vhci_libusb.Device.Giveback.{giveback_request}
use usb_vhci_libusb.LocalHcd.{port_from_address, canceling_work, finishing_work}
use usb_vhci_libusb.LocalHcd.Background.{port_stat_attempt, urb_attempt, update_port}
use usb_vhci_libusb.Errno.{linux}
use usb_vhci_libusb.Kernel.{sample}
use usb_vhci_libusb.Urb.{Urb, zeroed}
use usb_vhci_libusb.Device.{answer}
use usb_vhci_libusb.LocalHcd.{LocalHcd, Memory, IsFresh}
use usb_vhci_libusb.LocalHcd.Background.{UrbRound, Pass}
use usb_vhci_libusb.LocalHcd.Ports.{Call, hand, cancel, port_event, urb_event, run}
use usb_vhci_libusb.LocalHcd.Ports.Usable.{IsUsable}
use usb_vhci_libusb.LocalHcd.Ports.Going.{Runs}
use usb_vhci_libusb.LocalHcd.Ports.Total.{AllMeet, run_total, run_accounts}
use usb_vhci_libusb.LocalHcd.Account.{owed, returned}
use usb_vhci_libusb.LocalHcd.Account.Calls.{all_come_in}
use usb_vhci_libusb.Tests.Lifetimes.{
  new_controller, new_controller-IsNew, poor, told, running, memory, memory-IsFresh, enabled,
}

abbrev pub set_address : Urb
set_address = record zeroed { handle = 80; type = 2; w_value = 5; b_request = 5 }

-- What the pass for the URB meets, while the event is at the address 20.
abbrev elsewhere : Memory
elsewhere = record memory { new_address = λ store. if is_some (store 21) then none else some 21 }

pub elsewhere-IsFresh : IsFresh elsewhere
elsewhere-IsFresh store q e = ground (arith, some-injective 21 q)

abbrev pub round : UrbRound
round = record {
  bytes = [];
  packets = [];
  urb_memory = record { new_bytes = λ n. none; new_packets = λ n. none };
  reply = answer (record { bytes = none; packets = [] });
  memory = elsewhere;
}

abbrev pub first_pass : Pass
first_pass = record { puw = none; res = pos 0 }

pub round-IsUsable : IsUsable sample round set_address
round-IsUsable = record {
  address = omega arith;
  no_buffer = refl;
  no_packets = refl;
  proper = refl;
  bytes = λ e. ground (arith, e);
  packets = λ e. ground (arith, e);
  malloc = refl;
  answers = inr (record { bytes = none; packets = [] }, refl, omega arith);
}

abbrev calls : List Call
calls =
    port_event 1 enabled none memory
    ∷ urb_event round first_pass set_address
    ∷ cancel memory 80
    ∷ hand true
    ∷ []

calls-AllMeet : AllMeet linux sample 1 calls new_controller
calls-AllMeet = (
  (memory-IsFresh, λ q e. absurd (ground (arith, e)), λ e. omega (arith, e), omega arith),
  λ t left. (
    (elsewhere-IsFresh, λ q e. absurd (ground (arith, e)), round-IsUsable),
    λ t left. ((memory-IsFresh, refl), λ t left. (refl, λ t left. tt)),
  ),
)

run_total_example :
    (t : LocalHcd) × (run linux sample calls new_controller ≡ some t) × Runs sample t
run_total_example =
    run_total linux sample 1 poor 3 told new_controller running new_controller-IsNew calls
      calls-AllMeet

run_accounts_example :
    (t : LocalHcd) × (run linux sample calls new_controller ≡ some t)
    × ((n : ℕ) → returned n t + owed n t ≡ all_come_in linux sample n calls new_controller)
run_accounts_example =
    run_accounts linux sample 1 poor 3 told new_controller running new_controller-IsNew calls
      calls-AllMeet

-- The SET_ADDRESS comes in once, but a second cancelation gives it back once more.
comes_in_once : all_come_in linux sample 80 calls new_controller ≡ 1
unfolding port_stat_attempt new_port_stat_work enqueue_work on_work_enqueued urb_attempt
    from_struct_own chk port_from_address update_port get_reset_changed has get_reset get_enable
    new_process_urb_work cancel_process_urb_work is_urb canceling_work finishing_work
    giveback_request next_work next_work_loop
comes_in_once = refl

abbrev canceled_twice : List Call
canceled_twice =
    port_event 1 enabled none memory
    ∷ urb_event round first_pass set_address
    ∷ cancel memory 80
    ∷ cancel memory 80
    ∷ []

given_back_twice : all_come_in linux sample 80 canceled_twice new_controller ≡ 2
unfolding port_stat_attempt new_port_stat_work enqueue_work on_work_enqueued urb_attempt
    from_struct_own chk port_from_address update_port get_reset_changed has get_reset get_enable
    new_process_urb_work cancel_process_urb_work is_urb canceling_work finishing_work
    giveback_request
given_back_twice = refl
