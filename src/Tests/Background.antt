-- ===== src/Tests/Background.antt =====
-- The background thread of a controller.
use usb_vhci_libusb.Prelude.{
  if◌then◌else◌, ℕ, ◌≡◌, refl, Bool, true, false, arith, none, some, List, [], ◌∷◌, pos, get_elem?,
  is_some,
}
use mathlib.Core.Option.{some-injective}
use usb_vhci_libusb.Errno.{linux}
use usb_vhci_libusb.Kernel.{sample}
use usb_vhci_libusb.LocalHcd.Background.Dispatch.{Surroundings, bg_work}
use usb_vhci_libusb.PortStat.{PortStat, no_stat}
use usb_vhci_libusb.Urb.{Urb, zeroed}
use usb_vhci_libusb.Urb.Object.{from_struct_own, chk}
use usb_vhci_libusb.Work.{Store, new_process_urb_work}
use usb_vhci_libusb.Hcd.{enqueue_work}
use usb_vhci_libusb.Hcd.Owned.{Owns}
use usb_vhci_libusb.Hcd.Laws.{AllSound, Grows}
use usb_vhci_libusb.Device.{answer, failed}
use usb_vhci_libusb.Device.Fetch.{
  IocData, fetch_data, UsbWork, handle_payload, fetch_work, fetch_work_timeout,
}
use usb_vhci_libusb.LocalHcd.{PortInfo, LocalHcd, Memory, port_from_address}
use usb_vhci_libusb.LocalHcd.Laws.{Sound}
use usb_vhci_libusb.LocalHcd.Background.{
  finished, again, port_stat_attempt, Round, handled, UrbRound, Pass, load, urb_attempt, queue_urb,
}
use usb_vhci_libusb.LocalHcd.Background.PortEvents.{event_work, noted, port_stat_attempt-queues}
use usb_vhci_libusb.LocalHcd.Background.Rounds.{Waits, UrbRetry}
use usb_vhci_libusb.LocalHcd.Background.UrbEvents.{urb_work, address_after, urb_attempt-queues}

-- Containers that grow or not, and one free address.
abbrev memory : Bool → Memory
memory fits = record {
  new_address = λ store. if is_some (store 20) then none else some 20;
  fits = fits;
  malloc = true;
}

memory-IsFresh :
    (fits : Bool) (store : Store) (q : ℕ)
    → (memory fits).new_address store ≡ some q
    → store q ≡ none
memory-IsFresh fits store q e = ground (arith, some-injective 20 q)

abbrev port_at : ℕ → PortInfo
port_at adr = record { adr = adr; stat = no_stat }

-- Two ports: one without a device, one whose device has not yet got an address.
abbrev bus : LocalHcd
bus = record {
  port_count = 2;
  work_enqueued_callbacks = [];
  inbox = [];
  processing = [];
  store = λ p. none;
  notified = [];
  derived = record {
    fd = pos 3;
    id = pos 0;
    usb_bus_num = pos 4;
    bus_id = [];
    port_info = port_at 0xff ∷ port_at 0 ∷ [];
    given_back = [];
  };
}

bus-Owns : Owns bus
bus-Owns p = refl

bus-AllSound : AllSound (Sound sample) bus
bus-AllSound p o e = absurd (ground arith)

-- The device of port 1 has been connected.
abbrev plugged : PortStat
plugged = record { status = 0x0101; change = 0x0001; flags = 0 }

port_stat_attempt-queues_example :
    (t : LocalHcd) × (port_stat_attempt sample 1 plugged none (memory true) bus ≡ finished t)
    × Grows (Sound sample) bus t
    × (t.inbox ≡ 20 ∷ [])
    × (t.store 20 ≡ some (event_work sample 1 plugged (port_at 0xff)))
    × (get_elem? t.derived.port_info 0 ≡ some (noted plugged (port_at 0xff)))
    × (get_elem? t.derived.port_info 1 ≡ some (port_at 0))
port_stat_attempt-queues_example =
    port_stat_attempt-queues sample 1 plugged (memory true) bus (port_at 0xff) 20 1
      (memory-IsFresh true) bus-Owns bus-AllSound (λ e. omega (arith, e)) refl refl refl
      (λ e. omega (arith, e))

abbrev round : Round
round = record { others = λ h. h; shutdown = false; memory = memory true }

-- SET_ADDRESS 5 for the device with address 0.
abbrev set_address : Urb
set_address = record zeroed { handle = 80; type = 2; w_value = 5; b_request = 5 }

abbrev no_data : IocData
no_data = record { bytes = none; packets = [] }

abbrev urb_round : Bool → UrbRound
urb_round fits = record {
  bytes = [];
  packets = [];
  urb_memory = record { new_bytes = λ n. none; new_packets = λ n. none };
  reply = answer no_data;
  memory = memory fits;
}

abbrev first_pass : ℕ → Pass
first_pass res = record { puw = none; res = pos res }

urb_attempt-queues_example :
    (t : LocalHcd) × (urb_attempt sample (urb_round true) (first_pass 0) set_address bus
      ≡ finished t)
    × Grows (λ o. Unit {0}) bus t
    × (t.inbox ≡ 20 ∷ [])
    × (t.store 20 ≡ some (urb_work sample 2 set_address))
    × (get_elem? t.derived.port_info 1
        ≡ some (record { adr = address_after sample set_address 0; stat = no_stat }))
    × (get_elem? t.derived.port_info 0 ≡ some (port_at 0xff))
unfolding load from_struct_own chk port_from_address
urb_attempt-queues_example =
    urb_attempt-queues sample (urb_round true) (first_pass 0) set_address set_address bus 2 20 0
      (port_at 0) (record { value = pos 0; errno = none; output = set_address }) bus-Owns refl refl
      refl refl refl (λ e. omega (arith, e)) refl refl refl (λ e. omega (arith, e))

abbrev empty_iso : Urb
empty_iso = record zeroed { packet_count = pos 2; epadr = 0x81 }

-- A bulk transfer of four bytes to the device.
abbrev with_bytes : Urb
with_bytes = record zeroed {
  handle = 81;
  type = 3;
  buffer_length = pos 4;
  buffer_actual = pos 4;
  epadr = 1;
}

abbrev four : List ℕ → IocData
four bytes = record { bytes = some bytes; packets = [] }

abbrev starved : UrbRound
starved = record (urb_round false) {
  bytes = 0xaa ∷ 0xaa ∷ 0xaa ∷ 0xaa ∷ [];
  reply = answer (four (1 ∷ 2 ∷ 3 ∷ 4 ∷ []));
}

-- The first pass has fetched the data, and finds no memory for the inbox.
starved_again :
    urb_attempt sample starved (first_pass 1) with_bytes bus
    ≡ again (record { puw = some 20; res = pos 0 }) bus
unfolding urb_attempt queue_urb load from_struct_own chk port_from_address enqueue_work fetch_data
    new_process_urb_work
starved_again = refl

-- Every array is there at once.
abbrev at_once : Waits
at_once = record { bytes = []; packets = []; object = [] }

abbrev later_round : UrbRetry
later_round = record {
  others = λ h. h;
  shutdown = false;
  waits = record { bytes = false ∷ []; packets = []; object = [] };
  round = urb_round true;
}

abbrev no_memory : Surroundings
no_memory = record {
  memory = record { new_address = λ store. none; fits = true; malloc = true };
  rounds = [];
  waits = at_once;
  round = urb_round true;
  retries = [];
}

-- The kernel has nothing to do for the thread.
abbrev nothing : UsbWork
nothing = record { payload = handle_payload 0; type = 2 }

timed_out : bg_work linux sample no_memory (λ timeout. failed 110) nothing bus ≡ (handled, bus)
unfolding bg_work fetch_work fetch_work_timeout
timed_out = refl
