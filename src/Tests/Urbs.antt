-- ===== src/Tests/Urbs.antt =====
-- URB objects.
use usb_vhci_libusb.Prelude.{
  ◌==◌, ◌≢◌, Option, false, none, ℕ, ◌≡◌, ◌≤◌, ◌<◌, refl, true, arith, if◌then◌else◌, some, List,
  [], ◌∷◌, replicate, pos,
}
use usb_vhci_libusb.Urb.Object.Build.{Arguments, build, accepts, given, build-own}
use mathlib.Core.Option.{some-injective}
use usb_vhci_libusb.Work.Copying.{Urbs, place, Holder, destroy_holder, assign_holder}
use usb_vhci_libusb.Work.Copying.Laws.{assign_holder-cases}
use usb_vhci_libusb.Kernel.{sample, sample-IsHeader}
use usb_vhci_libusb.Status
use usb_vhci_libusb.Urb.{Urb, IsoPacket, zeroed, is_in}
use usb_vhci_libusb.Outcome.{ok, raised, invalid_argument, done, throws, fault, bad_alloc}
use usb_vhci_libusb.Urb.Object.{UrbMemory, set_iso_results}
use usb_vhci_libusb.Urb.Object.Copies.{IsEnough, ArraysFit}
use usb_vhci_libusb.Urb.Object.IsoResults.{failures, set_iso_results_lem}
use usb_vhci_libusb.Errno.{linux}
use usb_vhci_libusb.Device.Giveback.{giveback_request}
use usb_vhci_libusb.Device.Giveback.Laws.{sent_request}
use usb_vhci_libusb.Urb.Object.{◌>>=◌}
use usb_vhci_libusb.Urb.Object.PacketAnswers.{
  PacketCall, call_ack, call_stall, call_actual, call_packets, map_from, answered, answers_arrive,
}

abbrev packet_of : ℕ → IsoPacket
packet_of status = record {
  offset = 0;
  packet_length = pos 4;
  packet_actual = pos 4;
  status = pos status;
}

abbrev mixed : List IsoPacket
mixed = packet_of 0 ∷ packet_of 0x72000002 ∷ []

abbrev received : Urb
received = record zeroed {
  iso_packets = some mixed;
  packet_count = pos 2;
  buffer = some (1 ∷ 2 ∷ 3 ∷ 4 ∷ []);
  buffer_length = pos 4;
  epadr = 0x81;
}

set_iso_results_lem_example :
    (set_iso_results sample received
      ≡ ok (record received {
        error_count = pos 1;
        status = Status.success;
        buffer_actual = if is_in 0x81 then pos 4 else pos 0;
      }))
    × (failures mixed ≤ 2)
set_iso_results_lem_example = set_iso_results_lem sample received mixed refl refl refl

-- The second packet is acknowledged and cut short, and the first one stalls after all.
abbrev calls : List PacketCall
calls = call_ack (pos 1) ∷ call_ack (pos 0) ∷ call_actual (pos 1) (pos 2) ∷ call_stall (pos 0) ∷ []

abbrev answers : List IsoPacket
answers = map_from (answered calls) 0 mixed

answers_arrive_example :
    (v : Urb) × ((call_packets calls received >>= set_iso_results sample) ≡ ok v)
    × (v.handle ≡ received.handle)
    × (v.error_count ≡ pos (failures answers))
    × (giveback_request linux sample true v ≡ some (sent_request linux answers v))
answers_arrive_example =
    answers_arrive linux sample received mixed calls refl refl refl
      (at_1, (at_0, (at_1, (at_0, tt))))
  where
    at_0 : (j : ℕ) × (pos 0 ≡ pos j) × (j < 2)
    at_0 = (0, refl, omega arith)

    at_1 : (j : ℕ) × (pos 1 ≡ pos j) × (j < 2)
    at_1 = (1, refl, omega arith)

-- One packet has failed, and it is the first.
answers_fail : failures answers ≡ 1
answers_fail = refl

abbrev plenty : UrbMemory
plenty = record {
  new_bytes = λ n. some (replicate n 0xaa);
  new_packets = λ n. some (replicate n (packet_of 9));
}

plenty-IsEnough : IsEnough plenty
plenty-IsEnough n = (refl, refl)

received-ArraysFit : ArraysFit received
received-ArraysFit = record { buffer_fits = (refl, omega arith); packets_fit = (refl, omega arith) }

-- Two works, one with this URB and one without data.
abbrev urbs : Urbs
urbs p = if p == 1 then some zeroed else if p == 2 then some received else none

abbrev target : Holder
target = record { port = 1; canceled = false; urb = 1 }

abbrev source : Holder
source = record { port = 2; canceled = false; urb = 2 }

-- A free address.
abbrev three : Urbs → Option ℕ
three store = some 3

three_free : (q : ℕ) → three (place urbs 1 none) ≡ some q → place urbs 1 none q ≡ none
three_free q e = ground (arith, some-injective 3 q e)

assign_holder-cases_example :
    (target.urb ≡ source.urb → assign_holder plenty three source (urbs, target) ≡ fault)
    × ((q : ℕ)
        → target.urb ≢ source.urb
        → some 3 ≡ some q
        → (t : Urbs) × (assign_holder plenty three source (urbs, target)
            ≡ done tt (t, record source { urb = q }))
          × (q ≢ 2)
          × (t q ≡ some received)
          × (t 2 ≡ some received)
          × (q ≢ 1 → t 1 ≡ none)
          × ((p : ℕ) → p ≢ q → p ≢ 1 → t p ≡ urbs p))
    × (target.urb ≢ source.urb
        → ◌≡◌ {A = Option ℕ} (some 3) none
        → (t : Urbs) × (left : Holder) × (assign_holder plenty three source (urbs, target)
            ≡ throws bad_alloc (t, left))
          × (destroy_holder left t ≡ fault))
assign_holder-cases_example =
    assign_holder-cases plenty three urbs target source zeroed received refl refl plenty-IsEnough
      received-ArraysFit three_free

-- A bulk transfer with an interval.
abbrev polled : Arguments
polled = record {
  handle = 5;
  type = 3;
  buffer_length = pos 2;
  buffer = some (1 ∷ 2 ∷ []);
  own_buffer = true;
  iso_packet_count = pos 0;
  iso_packets = none;
  own_iso_packets = true;
  buffer_actual = pos 2;
  status = pos 0;
  error_count = pos 0;
  flags = 0;
  interval = 4;
  devadr = 1;
  epadr = 1;
  bm_request_type = 0;
  b_request = 0;
  w_value = 0;
  w_index = 0;
  w_length = 0;
}

bulk_accepted : accepts sample (record polled { interval = 0 }) ≡ true
bulk_accepted = refl

build-own_example :
    build sample plenty polled
    ≡ (if accepts sample polled then ok (given polled) else raised invalid_argument)
build-own_example = build-own sample plenty polled sample-IsHeader refl refl refl
