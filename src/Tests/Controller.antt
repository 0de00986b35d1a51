-- ===== src/Tests/Controller.antt =====
-- The queues of a controller and its ports.
use usb_vhci_libusb.Prelude.{
  ℕ, ◌+◌, ◌≡◌, ◌≤◌, ◌<◌, ◌⊎◌, ◌==◌, refl, Bool, true, false, arith, if◌then◌else◌, Option, none,
  some, [], ◌∷◌, pos, is_some,
}
use mathlib.Core.Option.{some-injective}
use usb_vhci_libusb.Errno.{linux}
use usb_vhci_libusb.Kernel.{sample}
use usb_vhci_libusb.PortStat.{no_stat}
use usb_vhci_libusb.Urb.{zeroed}
use usb_vhci_libusb.Work.{Work, Store, put, process_urb_work}
use usb_vhci_libusb.Outcome.{done, throws, Exception, bad_alloc, invalid_argument}
use usb_vhci_libusb.Hcd.{
  Hcd, base, next_work, next_work_loop, finish_work, cancel_process_urb_work, is_urb,
}
use usb_vhci_libusb.Hcd.Owned.{count, Owns}
use usb_vhci_libusb.Hcd.Laws.{AllSound, Grows, IsVirtual, base-IsVirtual}
use usb_vhci_libusb.Hcd.Next.{Hands, next_work-Hands, next_work_loses}
use usb_vhci_libusb.Hcd.Finish.{Finishes, finish_work-Finishes}
use usb_vhci_libusb.Hcd.Cancel.{Absent, Found, Cancels, cancel_process_urb_work-cases}
use usb_vhci_libusb.LocalHcd.{
  PortInfo, LocalHcd, Memory, local, address_from_port, port_from_address,
}
use usb_vhci_libusb.LocalHcd.Laws.{Sound, local-IsVirtual}
use usb_vhci_libusb.LocalHcd.Address.{Unused, FirstAt, port_from_address-cases}

abbrev urb_work : Bool → ℕ → Work
urb_work canceled handle = record {
  port = 1;
  canceled = canceled;
  kind = process_urb_work (record zeroed { handle = handle });
}

-- A canceled URB at 10, a waiting one at 11 and one in processing at 12.
abbrev objects : Store
objects p =
    if p == 10
    then some (urb_work true 70)
    else if p == 11
    then some (urb_work false 71)
    else if p == 12
    then some (urb_work false 72)
    else none

abbrev busy : Hcd (Unit {0})
busy = record {
  port_count = 1;
  work_enqueued_callbacks = [];
  inbox = 10 ∷ 11 ∷ [];
  processing = 12 ∷ [];
  store = objects;
  notified = [];
  derived = tt;
}

busy-Owns : Owns busy
busy-Owns p = ground arith

busy-AllSound : AllSound (λ o. Unit {0}) busy
busy-AllSound p o e = tt

next_work-Hands_example :
    (r : Option ℕ × Bool) × (t : Hcd (Unit {0})) × (next_work true busy ≡ done r t) × Hands busy r t
next_work-Hands_example = next_work-Hands busy busy-Owns

-- The canceled one is freed, and the next one is handed out.
handed_out :
    next_work true busy
    ≡ done
        (some 11, false)
        (record busy { inbox = []; processing = 12 ∷ 11 ∷ []; store = put objects 10 none })
unfolding next_work next_work_loop
handed_out = refl

-- Only the URB at 11, and it waits.
abbrev one_object : Store
one_object p = if p == 11 then some (urb_work false 71) else none

abbrev waiting : Hcd (Unit {0})
waiting = record busy { inbox = 11 ∷ []; processing = []; store = one_object }

waiting-Owns : Owns waiting
waiting-Owns p = ground arith

next_work_loses_example :
    (t : Hcd (Unit {0})) × (next_work false waiting ≡ throws bad_alloc t)
    × (t.store 11 ≡ some (urb_work false 71))
    × (count 11 t.inbox + count 11 t.processing ≡ 0)
next_work_loses_example =
    next_work_loses waiting 11 [] (urb_work false 71) waiting-Owns refl refl refl

finish_work-Finishes_example :
    (t : Hcd (Unit {0})) × (finish_work base 12 busy ≡ done tt t) × Finishes base 12 busy t
finish_work-Finishes_example =
    finish_work-Finishes (λ o. Unit {0}) base 12 busy base-IsVirtual busy-Owns busy-AllSound
      (omega arith)

cancel_process_urb_work-cases_example :
    ((w : ℕ) × Found objects 72 (10 ∷ 11 ∷ []) w
      × ((t : Hcd (Unit {0})) × (cancel_process_urb_work base 72 busy ≡ done false t)
          × Cancels base w busy t))
    ⊎ ((w : ℕ) × Absent objects 72 (10 ∷ 11 ∷ [])
        × Found objects 72 (12 ∷ []) w
        × ((t : Hcd (Unit {0})) × Grows (λ o. Unit {0}) busy t
            × (((base.canceling_work w true busy ≡ done tt t)
                  × (cancel_process_urb_work base 72 busy ≡ done true t))
                ⊎ ((e : Exception) × (base.canceling_work w true busy ≡ throws e t)
                    × (cancel_process_urb_work base 72 busy ≡ throws e t)))))
    ⊎ (Absent objects 72 (10 ∷ 11 ∷ [])
        × Absent objects 72 (12 ∷ [])
        × (cancel_process_urb_work base 72 busy ≡ done false busy))
cancel_process_urb_work-cases_example =
    cancel_process_urb_work-cases (λ o. Unit {0}) base 72 busy base-IsVirtual busy-Owns
      busy-AllSound

-- A URB in processing is reported, a waiting one is marked.
canceled_in_progress : cancel_process_urb_work base 72 busy ≡ done true busy
unfolding cancel_process_urb_work is_urb
canceled_in_progress = refl

canceled_waiting :
    cancel_process_urb_work base 71 waiting
    ≡ done false (record waiting { store = put one_object 11 (some (urb_work true 71)) })
unfolding cancel_process_urb_work is_urb
canceled_waiting = refl

-- One free address, and containers that grow.
abbrev enough : Memory
enough = record {
  new_address = λ store. if is_some (store 20) then none else some 20;
  fits = true;
  malloc = true;
}

enough-IsFresh : (store : Store) (q : ℕ) → enough.new_address store ≡ some q → store q ≡ none
enough-IsFresh store q e = ground (arith, some-injective 20 q)

local-IsVirtual_example : IsVirtual (Sound sample) (local linux sample enough)
local-IsVirtual_example = local-IsVirtual linux sample enough enough-IsFresh refl

abbrev port_at : ℕ → PortInfo
port_at adr = record { adr = adr; stat = no_stat }

-- Three ports, two of them with an address.
abbrev bus : LocalHcd
bus = record {
  port_count = 3;
  work_enqueued_callbacks = [];
  inbox = [];
  processing = [];
  store = λ p. none;
  notified = [];
  derived = record {
    fd = pos 3;
    id = pos 0;
    usb_bus_num = pos 4;
    bus_id = [];
    port_info = port_at 0xff ∷ port_at 7 ∷ port_at 9 ∷ [];
    given_back = [];
  };
}

port_from_address-cases_example :
    ((0x7f < 9) × (port_from_address 9 bus ≡ throws invalid_argument bus))
    ⊎ ((9 ≤ 0x7f) × ((port_from_address 9 bus ≡ done 0 bus) × Unused 9 bus.derived.port_info))
    ⊎ ((j : ℕ) × (9 ≤ 0x7f)
        × ((port_from_address 9 bus ≡ done (j + 1) bus)
            × FirstAt 9 j bus.derived.port_info
            × (address_from_port (j + 1) bus ≡ done 9 bus)))
port_from_address-cases_example = port_from_address-cases 9 bus refl

third_port : port_from_address 9 bus ≡ done 3 bus
unfolding port_from_address
third_port = refl
