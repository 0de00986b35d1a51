-- ===== src/LocalHcd/Ports/Usable.antt =====
-- What a URB pass makes of a URB that the kernel described and of its answer to FETCHDATA.
use usb_vhci_libusb.Prelude.{
  ◌⊎◌, ◌<◌, ℕ, ◌≡◌, ◌≤◌, refl, true, false, arith, Bool-cases, Option, none, some, inl, inr, List,
  length, ℤ, pos, pos_part, ◌==ℤ◌, ==ℤ_iff, ◌∙◌, if◌then◌else◌,
}
use usb_vhci_libusb.Kernel.{Header}
use usb_vhci_libusb.Urb.{Urb, IsoPacket}
use usb_vhci_libusb.Urb.Object.{from_struct_own}
use usb_vhci_libusb.Urb.Object.Copies.{ArrayFits, ArraysFit, is_proper, from_struct_own-proper}
use usb_vhci_libusb.Outcome.{ok}
use usb_vhci_libusb.Device.{answer, failed, Returned, fails, returns, minus_one}
use usb_vhci_libusb.Device.Fetch.{IocData, fetch_data, pointee, nonzero}
use usb_vhci_libusb.Device.Fetch.Laws.{fetch_data-total}
use usb_vhci_libusb.LocalHcd.Laws.{PacketsFit}
use usb_vhci_libusb.LocalHcd.Background.{UrbRound, with_arrays, load}

-- A URB of a known type, with an address of seven bits; its arrays are made as long as it counts.
-- FETCHDATA fails, or answers with as many packets as the URB counts.
pub record IsUsable (k : Header) (r : UrbRound) (u : Urb) : Type 0 where
  pub address : u.devadr ≤ 0x7f
  pub no_buffer : u.buffer ≡ none
  pub no_packets : u.iso_packets ≡ none
  pub proper : is_proper k u ≡ true
  pub bytes : nonzero u.buffer_length ≡ true → u.buffer_length ≡ pos (length r.bytes)
  pub packets : nonzero u.packet_count ≡ true → u.packet_count ≡ pos (length r.packets)
  pub malloc : r.memory.malloc ≡ true
  pub answers :
      ((code : ℕ) × (r.reply ≡ failed code))
      ⊎ ((d : IocData) × (r.reply ≡ answer d) × (pos_part u.packet_count ≤ length d.packets))

array_fits :
    {A : Type 0} (n : ℤ) (xs : List A) (o : Option (List A))
    → o ≡ none
    → (nonzero n ≡ true → n ≡ pos (length xs))
    → ArrayFits n (if nonzero n then some xs else o)
array_fits n xs o null counted = elim (Bool-cases (nonzero n)) [
  | inl some_values ↦ rw some_values (counted some_values, full some_values (counted some_values))
  | inr none_counted ↦ rw none_counted (rw null ((==ℤ_iff n (pos 0)).0 (zero none_counted)))
]
  where
    zero : nonzero n ≡ false → (n ==ℤ pos 0) ≡ true
    zero e = ground (arith, e)

    full : nonzero n ≡ true → n ≡ pos (length xs) → 0 < length xs
    full e c = ground (arith, rw c at e)

module _ (k : Header) (r : UrbRound) (u : Urb) (usable : IsUsable k r u) where
  arrays-ArraysFit : ArraysFit (with_arrays r u)
  arrays-ArraysFit = record {
    buffer_fits = array_fits u.buffer_length r.bytes u.buffer usable.no_buffer usable.bytes;
    packets_fit =
        array_fits u.packet_count r.packets u.iso_packets usable.no_packets usable.packets;
  }

  pub makes : from_struct_own k r.urb_memory (with_arrays r u) true ≡ ok (with_arrays r u)
  makes =
      from_struct_own-proper k r.urb_memory (with_arrays r u) arrays-ArraysFit
      ∙ rw usable.proper refl

  arrays-PacketsFit : PacketsFit (with_arrays r u)
  arrays-PacketsFit = fits_bound u.packet_count _ arrays-ArraysFit.packets_fit
    where
      fits_bound :
          (n : ℤ) (o : Option (List IsoPacket)) → ArrayFits n o → pos_part n ≤ length (pointee o)
      fits_bound n none fits = rw fits (omega arith)
      fits_bound n (some ps) fits = rw fits.0 (omega arith)

  fetches :
      (fetched : Returned Urb) × (fetch_data true r.reply (with_arrays r u) ≡ some fetched)
      × ((fetched.value ≡ minus_one)
          ⊎ ((fetched.value ≡ pos 0)
              × PacketsFit fetched.output
              × (fetched.output.handle ≡ u.handle)))
  fetches = elim usable.answers [
    | inl (code, refused) ↦
        (fails code (with_arrays r u), rw refused (unfold fetch_data in refl), inl refl)
    | inr (d, succeeds, enough) ↦
        let (ps, runs, same) = fetch_data-total d (with_arrays r u) enough arrays-PacketsFit in
        (
          returns (pos 0) (record (with_arrays r u) { buffer = d.bytes; iso_packets = ps }),
          rw succeeds runs,
          inr (refl, rw same arrays-PacketsFit, refl),
        )
  ]

  -- The URB is filled, unless FETCHDATA fails.
  pub load-cases :
      (res : ℤ)
      → (fetched : Returned Urb) × (load r res (with_arrays r u) ≡ some fetched)
        × ((fetched.value ≡ minus_one)
            ⊎ ((fetched.value ≡ pos 0)
                × PacketsFit fetched.output
                × (fetched.output.handle ≡ u.handle)))
  unfolding load
  load-cases res = elim (Bool-cases (nonzero res)) [
    | inl has_data ↦ rw has_data (rw usable.malloc fetches)
    | inr no_data ↦ rw no_data (_, refl, inr (refl, arrays-PacketsFit, refl))
  ]
