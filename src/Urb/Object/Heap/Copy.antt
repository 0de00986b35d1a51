-- ===== src/Urb/Object/Heap/Copy.antt =====
-- `_cpy` on an object whose pointers are NULL.
use usb_vhci_libusb.Prelude.{
  ◌⊎◌, ℕ, ◌≡◌, ◌≢◌, refl, ap, ◌∙◌, false, arith, ◌==◌, Option, none, some, ==_refl, Bool-cases, inl,
  inr,
}
use usb_vhci_libusb.Urb.{Urb, IsoPacket}
use usb_vhci_libusb.Outcome.{Outcome, done, throws, bad_alloc}
use usb_vhci_libusb.Urb.Object.Heap.{Blocks, place, Object, World, Allocator, cpy_into, cleared}
use usb_vhci_libusb.Urb.Object.Heap.Slots.{Owned, NoLeak, Others}
use usb_vhci_libusb.Urb.Object.Heap.Counted.{
  HasRoom, IsRefused, load, Backed, Stored, Stored-none, same_pointers, same_leaks,
  renew_counted-Stored,
}

-- The pointers of the objects, of the kind that `field` reads.
abbrev pub pointer : (Object → Option ℕ) → Option Object → Option ℕ
pointer field none = none
pointer field (some o) = field o

abbrev pub pointers : (Object → Option ℕ) → (ℕ → Option Object) → ℕ → Option ℕ
pointers field objects i = pointer field (objects i)

abbrev pub buffers : (ℕ → Option Object) → ℕ → Option ℕ
buffers = pointers (λ (o : Object). o.buffer)

abbrev pub packet_arrays : (ℕ → Option Object) → ℕ → Option ℕ
packet_arrays = pointers (λ (o : Object). o.iso_packets)

-- The URB that an object shows, with the content of its arrays.
abbrev pub shown : World → Object → Urb
shown w o = record (o.plain) {
  buffer = load w.bytes o.buffer;
  iso_packets = load w.packets o.iso_packets;
}

-- The arrays of an object are as long as its counts say.
pub record Fits (w : World) (u : Object) : Type 0 where
  pub bytes : Backed w.bytes u.plain.buffer_length u.buffer
  pub packets : Backed w.packets u.plain.packet_count u.iso_packets

-- `new` answers unused addresses.
pub record IsFresh (m : Allocator) : Type 0 where
  pub bytes : (b : Blocks ℕ) (p : ℕ) → m.new_bytes b ≡ some p → b p ≡ none
  pub packets : (b : Blocks IsoPacket) (p : ℕ) → m.new_packets b ≡ some p → b p ≡ none

-- The object `i` has no arrays, and the other objects own theirs.
pub record Vacant (i : ℕ) (w : World) : Type 0 where
  pub bytes : Owned w.bytes (place (buffers w.objects) i none)
  pub packets : Owned w.packets (place (packet_arrays w.objects) i none)

-- What holds once the object `i` is `o`.
pub record Placed (i : ℕ) (o : Object) (w t : World) : Type 0 where
  pub at : t.objects i ≡ some o
  pub bytes : Owned t.bytes (buffers t.objects)
  pub packets : Owned t.packets (packet_arrays t.objects)
  pub no_bytes_lost :
      NoLeak w.bytes (place (buffers w.objects) i none) → NoLeak t.bytes (buffers t.objects)
  pub no_packets_lost :
      NoLeak w.packets (place (packet_arrays w.objects) i none)
      → NoLeak t.packets (packet_arrays t.objects)
  pub others :
      (l : ℕ) (v : Object)
      → l ≢ i
      → w.objects l ≡ some v
      → (t.objects l ≡ some v) × (shown t v ≡ shown w v)

pub placed_off :
    {A : Type 0} (i l : ℕ) (r : Option A) (f : ℕ → Option A)
    → (i == l) ≡ false
    → place f i r l ≡ f l
placed_off i l r f other = rw other refl

pub pointers-place :
    (field : Object → Option ℕ) (objects : ℕ → Option Object) (i : ℕ) (o : Object) (l : ℕ)
    → place (place (pointers field objects) i none) i (field o) l
      ≡ pointers field (place objects i (some o)) l
pointers-place field objects i o l = elim (Bool-cases (i == l)) [
  | inl same ↦ rw same refl
  | inr other ↦ rw other refl
]

pub load-others :
    {A : Type 0} (i l : ℕ) (b c : Blocks A) (ptr : ℕ → Option ℕ) (r : Option ℕ)
    → Others i b ptr c
    → l ≢ i
    → ptr l ≡ r
    → load c r ≡ load b r
load-others i l b c ptr none others apart at_l = refl
load-others i l b c ptr (some p) others apart at_l = others l p apart at_l

pub shown-same :
    (w t : World) (v : Object)
    → load w.bytes v.buffer ≡ load t.bytes v.buffer
    → load w.packets v.iso_packets ≡ load t.packets v.iso_packets
    → shown w v ≡ shown t v
shown-same w t v same same' = rw (same, same') refl

module _ (i : ℕ) (o : Object) (w : World) (b : Blocks ℕ) (c : Blocks IsoPacket) where
  abbrev after : World
  after = record { bytes = b; packets = c; objects = place w.objects i (some o) }

  Stored-Placed :
      {source source' : Option ℕ}
      → Stored i o.buffer source w.bytes (place (buffers w.objects) i none) b
      → Stored i o.iso_packets source' w.packets (place (packet_arrays w.objects) i none) c
      → Placed i o w after
  Stored-Placed stored stored' = record {
    at = rw (==_refl i) refl;
    bytes =
        same_pointers b _ (buffers after.objects)
          (pointers-place (λ (x : Object). x.buffer) w.objects i o) stored.owned;
    packets =
        same_pointers c _ (packet_arrays after.objects)
          (pointers-place (λ (x : Object). x.iso_packets) w.objects i o) stored'.owned;
    no_bytes_lost = λ all.
        same_leaks b _ (buffers after.objects)
          (pointers-place (λ (x : Object). x.buffer) w.objects i o) (stored.no_leak all);
    no_packets_lost = λ all.
        same_leaks c _ (packet_arrays after.objects)
          (pointers-place (λ (x : Object). x.iso_packets) w.objects i o) (stored'.no_leak all);
    others = λ l v apart held. (
      placed_off i l (some o) w.objects (unlike l apart) ∙ held,
      shown-same after w v
          (load-others i l w.bytes b (place (buffers w.objects) i none) v.buffer stored.others apart
            (off_i (λ (x : Object). x.buffer) l v apart held))
          (load-others i l w.packets c (place (packet_arrays w.objects) i none) v.iso_packets
            stored'.others apart (off_i (λ (x : Object). x.iso_packets) l v apart held)),
    );
  }
    where
      unlike : (l : ℕ) → l ≢ i → (i == l) ≡ false
      unlike l apart = ground (arith, apart)

      off_i :
          (field : Object → Option ℕ) (l : ℕ) (v : Object)
          → l ≢ i
          → w.objects l ≡ some v
          → place (pointers field w.objects) i none l ≡ field v
      off_i field l v apart held =
          placed_off i l none (pointers field w.objects) (unlike l apart) ∙ ap (pointer field) held

pub vacated : (ptr : ℕ → Option ℕ) (i : ℕ) → place ptr i none i ≡ none
vacated ptr i = rw (==_refl i) refl

-- How a copy into the object `i` ends: with an equal URB, or for want of memory; in both cases the
-- object is there and everything else is as before.
pub data Copied (m : Allocator) (i : ℕ) (u : Object) (w : World) (r : Outcome World (Unit {0}))
    : Type 0 where
  copied :
      (o : Object) (t : World)
      → r ≡ done tt t
      → shown t o ≡ shown w u
      → Placed i o w t
      → HasRoom m.new_bytes u.plain.buffer_length w.bytes
      → HasRoom m.new_packets u.plain.packet_count w.packets
      → Copied m i u w r
  starved :
      (o : Object) (t : World)
      → r ≡ throws bad_alloc t
      → Placed i o w t
      → IsRefused m.new_bytes u.plain.buffer_length w.bytes
        ⊎ IsRefused m.new_packets u.plain.packet_count w.packets
      → Copied m i u w r

module _ (m : Allocator) (fresh : IsFresh m) (i : ℕ) (u : Object) (w : World) (vacant : Vacant i w)
    (fit : Fits w u) where
  pub cpy_into-Copied : Copied m i u w (cpy_into m i (some u) (cleared u) w)
  unfolding cpy_into
  cpy_into-Copied =
      elim (renew_counted-Stored m.new_bytes w.bytes (place (buffers w.objects) i none) i
        u.plain.buffer_length u.buffer (fresh.bytes w.bytes) vacant.bytes
        (vacated (buffers w.objects) i) fit.bytes) [
          | inl (refused, none_left) ↦
              starved (cleared u) _ (rw (none_left, cpy_into) refl)
                (Stored-Placed i (cleared u) w w.bytes w.packets
                  (Stored-none w.bytes _ i vacant.bytes (vacated (buffers w.objects) i))
                  (Stored-none w.packets _ i vacant.packets (vacated (packet_arrays w.objects) i)))
                (inl refused)
          | inr (r, b, room, runs, stored) ↦
              elim (renew_counted-Stored m.new_packets w.packets
                (place (packet_arrays w.objects) i none) i u.plain.packet_count u.iso_packets
                (fresh.packets w.packets) vacant.packets (vacated (packet_arrays w.objects) i)
                fit.packets) [
                  | inl (refused, none_left) ↦
                      starved (record (cleared u) { buffer = r }) _
                        (rw (runs, cpy_into) (rw (none_left, cpy_into) refl))
                        (Stored-Placed i (record (cleared u) { buffer = r }) w b w.packets stored
                          (Stored-none w.packets _ i vacant.packets
                            (vacated (packet_arrays w.objects) i)))
                        (inr refused)
                  | inr (q, c, room', runs', stored') ↦
                      copied (record u { buffer = r; iso_packets = q }) _
                        (rw (runs, cpy_into) (rw (runs', cpy_into) refl))
                        (rw (stored.equal, stored'.equal) refl)
                        (Stored-Placed i (record u { buffer = r; iso_packets = q }) w b c stored
                          stored')
                        room room'
                ]
        ]
