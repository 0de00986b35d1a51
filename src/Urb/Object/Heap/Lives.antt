-- ===== src/Urb/Object/Heap/Lives.antt =====
-- Any sequence of copies, assignments and destructions of URB objects.
use usb_vhci_libusb.Prelude.{
  ◌⊎◌, ℕ, ◌≡◌, ◌≢◌, refl, sym, ap, ◌∙◌, subst, false, arith, ◌==◌, ==_refl, none, some, inl, inr,
}
use usb_vhci_libusb.Urb.Object.Copies.{ArraysFit}
use usb_vhci_libusb.Outcome.{done, throws, bad_alloc}
use usb_vhci_libusb.Urb.Object.Heap.{
  Object, World, Allocator, construct_copy, assign_urb, cpy_into, cleared,
}
use usb_vhci_libusb.Urb.Object.Heap.Slots.{emptied}
use usb_vhci_libusb.Urb.Object.Heap.Counted.{HasRoom, IsRefused, unchanged, same_leaks}
use usb_vhci_libusb.Urb.Object.Heap.Copy.{
  pointer, buffers, packet_arrays, shown, Fits, IsFresh, Vacant, Placed, Copied, copied, starved,
  placed_off, cpy_into-Copied,
}
use usb_vhci_libusb.Urb.Object.Heap.Objects.{
  Safe, Tight, Untouched, IsFreed, free_arrays-IsFreed, Vacant-without, without, Safe-Vacant,
  Fits-shown,
}

-- The object `i` is there, all objects own their arrays, and the others are as before.
pub record Left (i : ℕ) (o : Object) (w t : World) : Type 0 where
  pub at : t.objects i ≡ some o
  pub safe : Safe t
  pub tight : Tight w → Tight t
  pub others : Untouched i w t

module _ (m : Allocator) (fresh : IsFresh m) (i j : ℕ) (w : World) (u : Object) (safe : Safe w)
    (source : w.objects j ≡ some u) (fit : ArraysFit (shown w u)) where
  -- Assigning a URB object to another one, with arrays that fit its counts. Its own
  -- arrays are freed first. If `new` then answers for each array that the other one counts, the
  -- object shows the same URB as the other; if it refuses one of them, the assignment throws
  -- `bad_alloc`. In both cases no array is
  -- freed twice or lost, every object has arrays of its own, and all other objects show what they
  -- showed.
  pub assign_urb-Left :
      (self : Object)
      → w.objects i ≡ some self
      → i ≢ j
      → (o : Object) × (t : World) × (((assign_urb m i j w ≡ done tt t)
            × (shown t o ≡ shown w u)
            × HasRoom m.new_bytes u.plain.buffer_length (emptied self.buffer w.bytes)
            × HasRoom m.new_packets u.plain.packet_count (emptied self.iso_packets w.packets))
          ⊎ ((assign_urb m i j w ≡ throws bad_alloc t)
              × (IsRefused m.new_bytes u.plain.buffer_length (emptied self.buffer w.bytes)
                  ⊎ IsRefused m.new_packets u.plain.packet_count
                      (emptied self.iso_packets w.packets))))
        × Left i o w t
  unfolding assign_urb
  assign_urb-Left self held apart =
      let (f, freed) = free_arrays-IsFreed i self w held safe in
      let fits : Fits f u =
        Fits-shown i j f u freed.vacant apart (freed.there j u source)
          (subst ArraysFit (sym (freed.same_arrays j u (λ e. apart (sym e)) source)) fit) in
      ending f freed (cpy_into-Copied m fresh i u f freed.vacant fits)
    where
      unlike : (i == j) ≡ false
      unlike = ground (arith, apart)

      runs :
          (f : World)
          → IsFreed i self w held safe f
          → assign_urb m i j w ≡ cpy_into m i (some u) (cleared u) f
      runs f freed =
          rw (held, assign_urb)
            (rw (freed.runs, assign_urb) (rw (source, assign_urb) (rw unlike refl)))

      Placed-Left :
          {o : Object} {t : World} (f : World)
          → IsFreed i self w held safe f
          → Placed i o f t
          → Left i o w t
      Placed-Left f freed placed = record {
        at = placed.at;
        safe = record { bytes = placed.bytes; packets = placed.packets };
        tight = λ tight. record {
          bytes = placed.no_bytes_lost (freed.tight_bytes tight);
          packets = placed.no_packets_lost (freed.tight_packets tight);
        };
        others = λ l v off it.
            let (is, same) = placed.others l v off (freed.there l v it) in
            (is, same ∙ freed.same_arrays l v off it);
      }

      ending :
          (f : World)
          → IsFreed i self w held safe f
          → Copied m i u f (cpy_into m i (some u) (cleared u) f)
          → (o : Object) × (t : World) × (((assign_urb m i j w ≡ done tt t)
                × (shown t o ≡ shown w u)
                × HasRoom m.new_bytes u.plain.buffer_length (emptied self.buffer w.bytes)
                × HasRoom m.new_packets u.plain.packet_count (emptied self.iso_packets w.packets))
              ⊎ ((assign_urb m i j w ≡ throws bad_alloc t)
                  × (IsRefused m.new_bytes u.plain.buffer_length (emptied self.buffer w.bytes)
                      ⊎ IsRefused m.new_packets u.plain.packet_count
                          (emptied self.iso_packets w.packets))))
            × Left i o w t
      ending f freed (copied o t r same placed room room') = (
        o,
        t,
        inl (
          runs f freed ∙ r,
          same ∙ freed.same_arrays j u (λ e. apart (sym e)) source,
          subst (HasRoom m.new_bytes u.plain.buffer_length) freed.bytes_freed room,
          subst (HasRoom m.new_packets u.plain.packet_count) freed.packets_freed room',
        ),
        Placed-Left f freed placed,
      )
      ending f freed (starved o t r placed refused) = (
        o,
        t,
        inr (
          runs f freed ∙ r,
          elim refused [
            | inl bytes ↦
                inl (subst (IsRefused m.new_bytes u.plain.buffer_length) freed.bytes_freed bytes)
            | inr packets ↦
                inr
                  (subst (IsRefused m.new_packets u.plain.packet_count) freed.packets_freed packets)
          ],
        ),
        Placed-Left f freed placed,
      )

  -- Making a copy of a URB object, whose arrays fit its counts, at an unused address. With memory
  -- there is a new object, which shows the same URB, and no array is lost; without, `bad_alloc` is
  -- thrown and there is none. In both cases every object has arrays of its own, and all others show
  -- what they showed.
  pub construct_copy-cases :
      w.objects i ≡ none
      → ((o : Object) × (t : World) × (construct_copy m i j w ≡ done tt t)
          × (shown t o ≡ shown w u)
          × Left i o w t)
        ⊎ ((t : World) × (construct_copy m i j w ≡ throws bad_alloc t)
            × (t.objects i ≡ none)
            × Safe t
            × Untouched i w t)
  unfolding construct_copy
  construct_copy-cases unused = ending (cpy_into-Copied m fresh i u w vacant fits)
    where
      vacant : Vacant i w
      vacant = Safe-Vacant i w safe

      apart : i ≢ j
      apart e = ground (arith, ap w.objects e, unused, source)

      fits : Fits w u
      fits = Fits-shown i j w u vacant apart source fit

      ending :
          Copied m i u w (cpy_into m i (some u) (cleared u) w)
          → ((o : Object) × (t : World) × (construct_copy m i j w ≡ done tt t)
              × (shown t o ≡ shown w u)
              × Left i o w t)
            ⊎ ((t : World) × (construct_copy m i j w ≡ throws bad_alloc t)
                × (t.objects i ≡ none)
                × Safe t
                × Untouched i w t)
      ending (copied o t r same placed room room') = inl (
        o,
        t,
        rw (source, construct_copy) (rw (r, construct_copy) refl),
        same,
        record {
          at = placed.at;
          safe = record { bytes = placed.bytes; packets = placed.packets };
          tight = λ tight. record {
            bytes = placed.no_bytes_lost (
                same_leaks w.bytes (buffers w.objects) _
                  (unchanged (buffers w.objects) i (ap (pointer (λ (x : Object). x.buffer)) unused))
                  tight.bytes);
            packets = placed.no_packets_lost (
                same_leaks w.packets (packet_arrays w.objects) _
                  (unchanged (packet_arrays w.objects) i
                    (ap (pointer (λ (x : Object). x.iso_packets)) unused))
                  tight.packets);
          };
          others = placed.others;
        },
      )
      ending (starved o t r placed refused) = inr (
        without i t,
        rw (source, construct_copy) (rw (r, construct_copy) refl),
        rw (==_refl i) refl,
        Vacant-without i t
            (Safe-Vacant i t (record { bytes = placed.bytes; packets = placed.packets })),
        λ l v off it.
            let (is, same) = placed.others l v off it in
            (placed_off i l none t.objects (ground (arith, off)) ∙ is, same),
      )
