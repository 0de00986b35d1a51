-- ===== src/Tests/Ownership.antt =====
-- A URB object of two bytes is copied, and both are destroyed.
use usb_vhci_libusb.Prelude.{
  ◌⊎◌, ◌≡◌, refl, arith, ◌==◌, if◌then◌else◌, is_some, none, some, List, [], ◌∷◌, pos,
}
use mathlib.Core.Option.{some-injective}
use usb_vhci_libusb.Urb.{zeroed}
use usb_vhci_libusb.Urb.Object.{read}
use usb_vhci_libusb.Urb.Object.Copies.{ArraysFit}
use usb_vhci_libusb.Outcome.{done, throws, bad_alloc}
use usb_vhci_libusb.Urb.Object.Heap.{
  place, Object, World, Allocator, destroy_urb, construct_copy, assign_urb, free_arrays,
  delete_array, renew, cpy_into,
}
use usb_vhci_libusb.Urb.Object.Heap.Slots.{emptied}
use usb_vhci_libusb.Urb.Object.Heap.Counted.{HasRoom, IsRefused}
use usb_vhci_libusb.Urb.Object.Heap.Copy.{shown, IsFresh}
use usb_vhci_libusb.Urb.Object.Heap.Objects.{Safe, Tight}
use usb_vhci_libusb.Urb.Object.Heap.Lives.{Left, assign_urb-Left}
use usb_vhci_libusb.Urb.Object.Heap.Runs.{
  Use, copies, destroys, applied, world_left, run, AllAllowed, AllAllowed-step, urbs-Safe,
  urbs_freed,
}

abbrev two_bytes : Object
two_bytes = record {
  plain = record zeroed { type = 3; buffer_length = pos 2 };
  buffer = some 5;
  iso_packets = none;
}

abbrev one_object : World
one_object = record {
  bytes = λ p. if p == 5 then some (1 ∷ 2 ∷ []) else none;
  packets = λ p. none;
  objects = λ i. if i == 0 then some two_bytes else none;
}

-- One address is free.
abbrev one_left : Allocator
one_left = record {
  new_bytes = λ b. if is_some (b 6) then none else some 6;
  new_packets = λ b. none;
}

one_left-IsFresh : IsFresh one_left
one_left-IsFresh = record {
  bytes = λ b p e. ground (arith, e, some-injective 6 p);
  packets = λ b p e. absurd (ground (arith, e));
}

one_object-Safe : Safe one_object
one_object-Safe = record {
  bytes = record {
    live = λ i p e. ground (arith, e, some-injective 5 p);
    apart = λ i j p e e'. ground (arith, e, e');
  };
  packets = record {
    live = λ i p e. absurd (ground (arith, e));
    apart = λ i j p e e'. absurd (ground (arith, e));
  };
}

one_object-Tight : Tight one_object
one_object-Tight = record {
  bytes = λ p xs e. (0, ground (arith, e));
  packets = λ p xs e. absurd (ground (arith, e));
}

two_bytes-ArraysFit : ArraysFit (shown one_object two_bytes)
two_bytes-ArraysFit = record { buffer_fits = (refl, omega arith); packets_fit = refl }

abbrev uses : List Use
uses = copies one_left 1 0 ∷ destroys 0 ∷ destroys 1 ∷ []

abbrev left_by : Use → World → World
left_by x w = elim (world_left (applied x w)) [ none ↦ w | some t ↦ t ]

abbrev copied : World
copied = left_by (copies one_left 1 0) one_object

abbrev one_gone : World
one_gone = left_by (destroys 0) copied

abbrev none_left : World
none_left = left_by (destroys 1) one_gone

uses-AllAllowed : AllAllowed uses one_object
unfolding construct_copy cpy_into renew read destroy_urb free_arrays delete_array
uses-AllAllowed =
    AllAllowed-step (copies one_left 1 0) (destroys 0 ∷ destroys 1 ∷ []) one_object copied
      (one_left-IsFresh, refl, two_bytes, refl, two_bytes-ArraysFit) refl
      (AllAllowed-step (destroys 0) (destroys 1 ∷ []) copied one_gone (two_bytes, refl) refl
        (AllAllowed-step (destroys 1) [] one_gone none_left
          (record two_bytes { buffer = some 6 }, refl) refl tt))

urbs-Safe_example : (t : World) × (run uses one_object ≡ some t) × Safe t
urbs-Safe_example = urbs-Safe uses one_object one_object-Safe uses-AllAllowed

urbs_freed_example : (none_left.bytes 6 ≡ none) × (none_left.packets 6 ≡ none)
unfolding construct_copy cpy_into renew read destroy_urb free_arrays delete_array
urbs_freed_example =
    urbs_freed uses one_object none_left one_object-Safe one_object-Tight uses-AllAllowed refl refl
      (λ i. ground arith) 6

-- A second object, without arrays.
abbrev two_objects : World
two_objects = record one_object {
  objects =
      place one_object.objects 1
        (some (record { plain = zeroed; buffer = none; iso_packets = none }));
}

two_objects-Safe : Safe two_objects
two_objects-Safe = record {
  bytes = record {
    live = λ i p e. ground (arith, e, some-injective 5 p);
    apart = λ i j p e e'. ground (arith, e, e');
  };
  packets = record {
    live = λ i p e. absurd (ground (arith, e));
    apart = λ i j p e e'. absurd (ground (arith, e));
  };
}

assign_urb-Left_example :
    (o : Object) × (t : World) × (((assign_urb one_left 1 0 two_objects ≡ done tt t)
        × (shown t o ≡ shown two_objects two_bytes)
        × HasRoom one_left.new_bytes (pos 2) (emptied none two_objects.bytes)
        × HasRoom one_left.new_packets (pos 0) (emptied none two_objects.packets))
      ⊎ ((assign_urb one_left 1 0 two_objects ≡ throws bad_alloc t)
          × (IsRefused one_left.new_bytes (pos 2) (emptied none two_objects.bytes)
              ⊎ IsRefused one_left.new_packets (pos 0) (emptied none two_objects.packets))))
    × Left 1 o two_objects t
assign_urb-Left_example =
    assign_urb-Left one_left one_left-IsFresh 1 0 two_objects two_bytes two_objects-Safe refl
      two_bytes-ArraysFit _ refl (λ e. omega (arith, e))
