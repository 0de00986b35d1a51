-- ===== src/Urb/Object/Heap/Objects.antt =====
-- The methods of `usb::urb` that make, copy, assign and destroy an object: no array is freed twice,
-- and what is lost when memory runs out.
use usb_vhci_libusb.Prelude.{
  ℕ, ◌≡◌, ◌≢◌, refl, ap, ◌∙◌, subst, true, arith, ◌==◌, Option-cases, Bool-cases, Option, none,
  some, inl, inr, ℤ, is_some,
}
use usb_vhci_libusb.Urb.Object.Copies.{ArrayFits, ArraysFit}
use usb_vhci_libusb.Outcome.{done}
use usb_vhci_libusb.Urb.Object.Heap.{Blocks, place, Object, World, free_arrays}
use usb_vhci_libusb.Urb.Object.Heap.Slots.{
  Owned, NoLeak, Owned-without, emptied, delete_array-Freed,
}
use usb_vhci_libusb.Urb.Object.Heap.Counted.{load, Backed, same_pointers}
use usb_vhci_libusb.Urb.Object.Heap.Copy.{
  pointer, pointers, buffers, packet_arrays, shown, shown-same, Fits, Vacant, load-others,
  placed_off,
}

-- Every object owns its arrays: its pointers are to live arrays, and no two pointers to the same.
pub record Safe (w : World) : Type 0 where
  pub bytes : Owned w.bytes (buffers w.objects)
  pub packets : Owned w.packets (packet_arrays w.objects)

-- Every array belongs to an object.
pub record Tight (w : World) : Type 0 where
  pub bytes : NoLeak w.bytes (buffers w.objects)
  pub packets : NoLeak w.packets (packet_arrays w.objects)

-- The other objects are there and show the same.
abbrev pub Untouched : ℕ → World → World → Type 0
Untouched i w t =
    (l : ℕ) (v : Object)
    → l ≢ i
    → w.objects l ≡ some v
    → (t.objects l ≡ some v) × (shown t v ≡ shown w v)

module _ (i : ℕ) (o : Object) (w : World) (held : w.objects i ≡ some o) (safe : Safe w) where
  -- The arrays of an object are freed.
  pub record IsFreed (t : World) : Type 0 where
    pub runs : free_arrays o w ≡ done tt t
    pub vacant : Vacant i t
    pub there : (l : ℕ) (v : Object) → w.objects l ≡ some v → t.objects l ≡ some v
    pub tight_bytes : Tight w → NoLeak t.bytes (place (buffers t.objects) i none)
    pub tight_packets : Tight w → NoLeak t.packets (place (packet_arrays t.objects) i none)
    pub bytes_freed : t.bytes ≡ emptied o.buffer w.bytes
    pub packets_freed : t.packets ≡ emptied o.iso_packets w.packets
    pub same_arrays : (l : ℕ) (v : Object) → l ≢ i → w.objects l ≡ some v → shown t v ≡ shown w v

  pub free_arrays-IsFreed : (t : World) × IsFreed t
  unfolding free_arrays
  free_arrays-IsFreed =
      let (b, runs, freed) = delete_array-Freed w.bytes (buffers w.objects) i safe.bytes in
      let (c, runs', freed') =
        delete_array-Freed w.packets (packet_arrays w.objects) i safe.packets in
      let at : pointer (λ (x : Object). x.buffer) (w.objects i) ≡ o.buffer =
        ap (pointer (λ (x : Object). x.buffer)) held in
      let at' : pointer (λ (x : Object). x.iso_packets) (w.objects i) ≡ o.iso_packets =
        ap (pointer (λ (x : Object). x.iso_packets)) held in
      (
        record w { bytes = b; packets = c },
        record {
          runs = rw (rw at at runs, free_arrays) (rw (rw at' at runs', free_arrays) refl);
          vacant = record { bytes = freed.owned; packets = freed'.owned };
          there = λ l v it. it;
          tight_bytes = λ tight. freed.no_leak tight.bytes;
          tight_packets = λ tight. freed'.no_leak tight.packets;
          bytes_freed = freed.content ∙ ap (λ (r : Option ℕ). emptied r w.bytes) at;
          packets_freed = freed'.content ∙ ap (λ (r : Option ℕ). emptied r w.packets) at';
          same_arrays = λ l v apart there.
              shown-same (record w { bytes = b; packets = c }) w v
                (load-others i l w.bytes b (buffers w.objects) v.buffer freed.others apart
                  (ap (pointer (λ (x : Object). x.buffer)) there))
                (load-others i l w.packets c (packet_arrays w.objects) v.iso_packets freed'.others
                  apart (ap (pointer (λ (x : Object). x.iso_packets)) there));
        },
      )

pub pointers-without :
    (field : Object → Option ℕ) (objects : ℕ → Option Object) (i l : ℕ)
    → place (pointers field objects) i none l ≡ pointers field (place objects i none) l
pointers-without field objects i l = elim (Bool-cases (i == l)) [
  | inl same ↦ rw same refl
  | inr other ↦ rw other refl
]

abbrev pub without : ℕ → World → World
without i w = record w { objects = place w.objects i none }

pub Vacant-without : (i : ℕ) (w : World) → Vacant i w → Safe (without i w)
Vacant-without i w vacant = record {
  bytes =
      same_pointers w.bytes _ _ (pointers-without (λ (x : Object). x.buffer) w.objects i)
        vacant.bytes;
  packets =
      same_pointers w.packets _ _ (pointers-without (λ (x : Object). x.iso_packets) w.objects i)
        vacant.packets;
}

pub Safe-Vacant : (i : ℕ) (w : World) → Safe w → Vacant i w
Safe-Vacant i w safe = record {
  bytes = Owned-without w.bytes (buffers w.objects) i safe.bytes;
  packets = Owned-without w.packets (packet_arrays w.objects) i safe.packets;
}

backed :
    {A : Type 0} (b : Blocks A) (n : ℤ) (r : Option ℕ)
    → ((p : ℕ) → r ≡ some p → is_some (b p) ≡ true)
    → ArrayFits n (load b r)
    → Backed b n r
backed b n none live fits = fits
backed b n (some p) live fits = elim (Option-cases (b p)) [
  | inl gone ↦ absurd (ground (arith, live p refl, gone))
  | inr (xs, e) ↦ let (counted, full) = subst (ArrayFits n) e fits in (xs, e, counted, full)
]

pub Fits-shown :
    (i j : ℕ) (w : World) (u : Object)
    → Vacant i w
    → i ≢ j
    → w.objects j ≡ some u
    → ArraysFit (shown w u)
    → Fits w u
Fits-shown i j w u vacant apart held fit = record {
  bytes =
      backed w.bytes u.plain.buffer_length u.buffer
        (λ p e. vacant.bytes.live j p (at_j (λ (x : Object). x.buffer) ∙ e)) fit.buffer_fits;
  packets =
      backed w.packets u.plain.packet_count u.iso_packets
        (λ p e. vacant.packets.live j p (at_j (λ (x : Object). x.iso_packets) ∙ e)) fit.packets_fit;
}
  where
    at_j : (field : Object → Option ℕ) → place (pointers field w.objects) i none j ≡ field u
    at_j field =
        placed_off i j none (pointers field w.objects) (ground (arith, apart))
        ∙ ap (pointer field) held
