-- ===== src/Urb/Object/Heap/Runs.antt =====
-- Any sequence of copies, assignments and destructions of URB objects.
use usb_vhci_libusb.Prelude.{
  ℕ, ◌≡◌, ◌≢◌, refl, sym, ap, ◌∙◌, subst, Bool, true, false, arith, ◌&&◌, Option-cases, Option,
  none, some, inl, inr, List, [], ◌∷◌,
}
use mathlib.Core.Option.{some-injective}
use usb_vhci_libusb.Urb.Object.Copies.{ArraysFit}
use usb_vhci_libusb.Outcome.{Outcome, done, throws, fault}
use usb_vhci_libusb.Urb.Object.Heap.{
  Blocks, place, Object, World, Allocator, destroy_urb, construct_copy, assign_urb,
}
use usb_vhci_libusb.Urb.Object.Heap.Copy.{pointer, buffers, packet_arrays, shown, IsFresh}
use usb_vhci_libusb.Urb.Object.Heap.Slots.{NoLeak}
use usb_vhci_libusb.Urb.Object.Heap.Counted.{same_leaks}
use usb_vhci_libusb.Urb.Object.Heap.Objects.{
  Safe, Tight, free_arrays-IsFreed, without, Vacant-without, pointers-without,
}
use usb_vhci_libusb.Urb.Object.Heap.Lives.{assign_urb-Left, construct_copy-cases}

-- What a program does with its objects.
pub data Use : Type 0 where
  copies assigns : Allocator → ℕ → ℕ → Use
  destroys : ℕ → Use

abbrev pub applied : Use → World → Outcome World (Unit {0})
applied (copies m i j) w = construct_copy m i j w
applied (assigns m i j) w = assign_urb m i j w
applied (destroys i) w = destroy_urb i w

-- A copy or an assignment is from another object, whose arrays fit its counts; a copy is to an
-- unused address, the others are of an object that is there.
abbrev pub Allowed : Use → World → Type 0
Allowed (copies m i j) w =
    IsFresh m × (w.objects i ≡ none) × (u : Object) × (w.objects j ≡ some u) × ArraysFit (shown w u)
Allowed (assigns m i j) w =
    IsFresh m
    × (i ≢ j)
    × (self : Object) × (w.objects i ≡ some self)
    × (u : Object) × (w.objects j ≡ some u)
    × ArraysFit (shown w u)
Allowed (destroys i) w = (o : Object) × (w.objects i ≡ some o)

-- The world that is left, `none` after undefined behaviour.
abbrev pub world_left : Outcome World (Unit {0}) → Option World
world_left (done _ t) = some t
world_left (throws x t) = some t
world_left fault = none

abbrev pub run : List Use → World → Option World
run [] w = some w
run (x ∷ uses) w = elim (world_left (applied x w)) [ none ↦ none | some t ↦ run uses t ]

-- Each use is allowed where it stands.
abbrev pub AllAllowed : List Use → World → Type 0
AllAllowed [] w = Unit {0}
AllAllowed (x ∷ uses) w =
    Allowed x w × ((t : World) → world_left (applied x w) ≡ some t → AllAllowed uses t)

pub AllAllowed-step :
    (x : Use) (uses : List Use) (w s : World)
    → Allowed x w
    → world_left (applied x w) ≡ some s
    → AllAllowed uses s
    → AllAllowed (x ∷ uses) w
AllAllowed-step x uses w s allowed left later =
    (allowed, λ t e. subst (AllAllowed uses) (some-injective s t (sym left ∙ e)) later)

-- No copy constructor throws.
abbrev pub copies_made : Use → Outcome World (Unit {0}) → Bool
copies_made (copies m i j) (throws x t) = false
copies_made _ _ = true

abbrev pub all_made : List Use → World → Bool
all_made [] w = true
all_made (x ∷ uses) w =
    copies_made x (applied x w)
    && elim (world_left (applied x w)) [ none ↦ false | some t ↦ all_made uses t ]

-- What one use leaves.
abbrev Keeps : Use → World → Type 0
Keeps x w =
    (t : World) × (world_left (applied x w) ≡ some t)
    × Safe t
    × (copies_made x (applied x w) ≡ true → Tight w → Tight t)

destroy_urb-Keeps :
    (i : ℕ) (w : World) (o : Object) → Safe w → w.objects i ≡ some o → Keeps (destroys i) w
unfolding destroy_urb
destroy_urb-Keeps i w o safe held =
    let (f, freed) = free_arrays-IsFreed i o w held safe in
    (
      without i f,
      rw (held, destroy_urb) (rw (freed.runs, destroy_urb) refl),
      Vacant-without i f freed.vacant,
      λ made tight. record {
        bytes =
            same_leaks f.bytes _ (buffers (place f.objects i none))
              (pointers-without (λ (x : Object). x.buffer) f.objects i) (freed.tight_bytes tight);
        packets =
            same_leaks f.packets _ (packet_arrays (place f.objects i none))
              (pointers-without (λ (x : Object). x.iso_packets) f.objects i)
              (freed.tight_packets tight);
      },
    )

use-Keeps : (x : Use) (w : World) → Safe w → Allowed x w → Keeps x w
use-Keeps (copies m i j) w safe (fresh, unused, u, source, fit) =
    elim (construct_copy-cases m fresh i j w u safe source fit unused) [
      | inl (o, t, runs, same, left) ↦ (t, rw runs refl, left.safe, λ made. left.tight)
      | inr (t, runs, gone, safe_there, others) ↦
          (t, rw runs refl, safe_there, λ made. absurd (ground (arith, rw runs at made)))
    ]
use-Keeps (assigns m i j) w safe (fresh, apart, self, held, u, source, fit) =
    let (o, t, ends, left) = assign_urb-Left m fresh i j w u safe source fit self held apart in
    elim ends [
      | inl (runs, same, room, room') ↦ (t, rw runs refl, left.safe, λ made. left.tight)
      | inr (runs, refused) ↦ (t, rw runs refl, left.safe, λ made. left.tight)
    ]
use-Keeps (destroys i) w safe (o, held) = destroy_urb-Keeps i w o safe held

unowned :
    {A : Type 0} (b : Blocks A) (ptr : ℕ → Option ℕ)
    → NoLeak b ptr
    → ((i : ℕ) → ptr i ≡ none)
    → (p : ℕ) → b p ≡ none
unowned b ptr all gone p = elim (Option-cases (b p)) [
  | inl free ↦ free
  | inr (xs, held) ↦ let (i, at_p) = all p xs held in absurd (ground (arith, gone i, at_p))
]

both : (a b : Bool) → (a && b) ≡ true → (a ≡ true) × (b ≡ true)
both true b h = (refl, h)
both false b h = absurd (ground (arith, h))

runs_well :
    (uses : List Use) (w : World)
    → Safe w
    → AllAllowed uses w
    → (t : World) × (run uses w ≡ some t) × Safe t × (all_made uses w ≡ true → Tight w → Tight t)
runs_well [] w safe allowed = (w, refl, safe, λ made tight. tight)
runs_well (x ∷ uses) w safe allowed =
    let (t, left, safe_there, tight_there) = use-Keeps x w safe allowed.0 in
    let (last, runs, safe_last, tight_last) = runs_well uses t safe_there (allowed.1 t left) in
    (
      last,
      rw (left, run) runs,
      safe_last,
      λ made tight.
          let (here, later) = both (copies_made x (applied x w)) _ made in
          tight_last (rw (left, all_made) at later) (tight_there here tight),
    )

-- However a program copies, assigns and destroys URB objects, whose arrays fit their counts when
-- they are read, and whatever memory there is, nothing is undefined: no array is freed twice or read
-- after it is freed, and in the end every pointer of an object is to a live array, and no two to the
-- same. No object may be assigned to itself.
pub urbs-Safe :
    (uses : List Use) (w : World)
    → Safe w
    → AllAllowed uses w
    → (t : World) × (run uses w ≡ some t) × Safe t
urbs-Safe uses w safe allowed =
    let (t, runs, safe_there, tight) = runs_well uses w safe allowed in (t, runs, safe_there)

-- If in the beginning every array belongs to an object, and no copy constructor throws, no array is
-- left when every object has been destroyed, also if assignments have thrown for want of memory.
pub urbs_freed :
    (uses : List Use) (w t : World)
    → Safe w
    → Tight w
    → AllAllowed uses w
    → all_made uses w ≡ true
    → run uses w ≡ some t
    → ((i : ℕ) → t.objects i ≡ none)
    → (p : ℕ) → (t.bytes p ≡ none) × (t.packets p ≡ none)
urbs_freed uses w t safe tight allowed made runs gone p =
    let (last, ran, safe_last, tight_last) = runs_well uses w safe allowed in
    let all : Tight t =
      subst Tight (some-injective last t (sym ran ∙ runs)) (tight_last made tight) in
    (
      unowned t.bytes (buffers t.objects) all.bytes
          (λ i. ap (pointer (λ (x : Object). x.buffer)) (gone i)) p,
      unowned t.packets (packet_arrays t.objects) all.packets
          (λ i. ap (pointer (λ (x : Object). x.iso_packets)) (gone i)) p,
    )
