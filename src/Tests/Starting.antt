-- ===== src/Tests/Starting.antt =====
-- The example in C++ from its start: before the callback is registered, a URB comes for an address
-- that no device has.
use usb_vhci_libusb.Prelude.{◌≡◌, refl, true, false, arith, none, some, List, [], ◌∷◌}
use usb_vhci_libusb.Errno.{linux}
use usb_vhci_libusb.Kernel.{sample}
use usb_vhci_libusb.Outcome.{done}
use usb_vhci_libusb.Urb.Object.{from_struct_own, chk}
use usb_vhci_libusb.Device.Open.{usb_vhci_open}
use usb_vhci_libusb.Hcd.{construct, next_work, next_work_loop}
use usb_vhci_libusb.Hcd.Thread.{init_bg_thread}
use usb_vhci_libusb.LocalHcd.Lifetime.{construct_local}
use usb_vhci_libusb.LocalHcd.Background.{urb_attempt}
use usb_vhci_libusb.Hcd.Owned.{pending}
use usb_vhci_libusb.LocalHcd.{LocalHcd, port_from_address}
use usb_vhci_libusb.LocalHcd.Ports.{Call, urb_event, run}
use usb_vhci_libusb.ExampleCpp.Callbacks.{signal_callback, call_all}
use usb_vhci_libusb.ExampleCpp.{asleep, look}
use usb_vhci_libusb.ExampleCpp.System.{System, Reach, here, next, looks, takes}
use usb_vhci_libusb.ExampleCpp.Start.{begun, before_loop, begin, loop_never_misses}
use usb_vhci_libusb.Tests.Lifetimes.{
  eintr, closing-Settles, has_room, new_controller, poor, running,
}
use usb_vhci_libusb.Tests.Endurance.{
  set_address, round, first_pass, round-IsUsable, elsewhere-IsFresh,
}

abbrev calls : List Call
calls = urb_event round first_pass set_address ∷ []

abbrev registered : LocalHcd
registered = record new_controller { work_enqueued_callbacks = signal_callback ∷ [] }

begins :
    begin eintr 2 poor (run linux sample calls) true ≡ some (begun (before_loop registered) running)
unfolding begin construct_local construct usb_vhci_open init_bg_thread urb_attempt from_struct_own
    chk port_from_address
begins = refl

-- After the first round, in which there was no work, the client sleeps.
abbrev sleeping : System
sleeping = record (before_loop registered) {
  shared = record { has_work = false; waiting_for_work = true; signalled = false };
  pc = asleep;
}

nothing_yet : next_work true registered ≡ done (none, false) registered
unfolding next_work next_work_loop
nothing_yet = refl

falls_asleep : Reach linux sample (before_loop registered) sleeping
unfolding look
falls_asleep =
    next (next (next here (looks refl)) (takes (none, false) registered refl nothing_yet))
      (looks refl)

loop_never_misses_example :
    (pending sleeping.hcd.store sleeping.hcd.inbox ≡ [])
    × (sleeping.hcd.processing ≡ [])
    × ((call_all true sleeping.hcd.work_enqueued_callbacks sleeping.shared).signalled ≡ true)
loop_never_misses_example =
    loop_never_misses linux sample eintr 2 1 poor closing-Settles (omega arith) calls true
      (has_room 1)
      (λ file d new c is.
        ((elsewhere-IsFresh, λ q e. absurd (ground (arith, e)), round-IsUsable), λ t left. tt))
      (refl, tt) (before_loop registered) running begins sleeping falls_asleep refl refl
