-- ===== src/Device/Giveback/Laws.antt =====
-- What `usb_vhci_giveback` sends and returns.
use usb_vhci_libusb.Prelude.{
  ℕ, zero, suc, ◌-◌, ◌%◌, ◌≡◌, refl, true, arith, none, some, List, [], ◌∷◌, map, length, has, ◌&&◌,
  if◌then◌else◌, is_positive, ℤ, negsuc, ◌↔◌, ◌⊎◌, inl, inr, pos, pos_part, ◌≤◌, is_some,
  Bool-cases, Option-cases,
}
use usb_vhci_libusb.Errno.{Errno}
use usb_vhci_libusb.Kernel.{Header}
use usb_vhci_libusb.Status.{to_errno, to_iso_packets_errno}
use usb_vhci_libusb.Urb.{Urb, IsoPacket, is_in, is_iso}
use usb_vhci_libusb.Device.{Reply, answer, failed}
use usb_vhci_libusb.Device.Giveback.{
  IocGiveback, IocIsoGiveback, u32_of, pointee, plain_giveback, give_packet, give_packets,
  giveback_request, giveback_result,
}

give_packets_lem :
    (e : Errno) (n : ℕ) (ps : List IsoPacket)
    → n ≡ length ps
    → give_packets e n ps ≡ some (map (give_packet e) ps)
unfolding give_packets
give_packets_lem e zero [] p = refl
give_packets_lem e zero (x ∷ ps) p = absurd (omega arith)
give_packets_lem e (suc n) [] p = absurd (omega arith)
give_packets_lem e (suc n) (x ∷ ps) p = rw (give_packets_lem e n ps (omega arith), give_packets)

-- A number of 32 bits as the kernel's unsigned type holds it.
abbrev pub as_u32 : ℤ → ℕ
as_u32 (pos n) = n % 0x100000000
as_u32 (negsuc n) = 0xffffffff - n % 0x100000000

-- What the kernel gets of a packet: the error number of its status, and how much was transferred.
abbrev pub sent_packet : Errno → IsoPacket → IocIsoGiveback
sent_packet e p = record {
  status = to_iso_packets_errno e p.status;
  packet_actual = as_u32 p.packet_actual;
}

-- What the kernel gets of an isochronous URB: the data only of an IN endpoint that has some.
abbrev pub sent_request : Errno → List IsoPacket → Urb → IocGiveback
sent_request e ps urb = record {
  handle = urb.handle;
  status = to_errno e urb.status true;
  buffer_actual = urb.buffer_actual;
  buffer = if has urb.epadr 0x80 && is_positive urb.buffer_actual then urb.buffer else none;
  iso_packets = some (map (sent_packet e) ps);
  packet_count = pos (length ps);
  error_count = urb.error_count;
}

give_packets-sent :
    (e : Errno) (ps : List IsoPacket) → map (give_packet e) ps ≡ map (sent_packet e) ps
give_packets-sent e [] = refl
give_packets-sent e (p ∷ ps) = rw (give_packets-sent e ps, give_packet-sent p.packet_actual) refl
  where
    give_packet-sent : (n : ℤ) → u32_of n ≡ as_u32 n
    give_packet-sent (pos n) = refl
    give_packet-sent (negsuc n) = refl

-- With memory, for an isochronous URB whose count fits its packets, the request carries the URB's
-- handle, the error number of its status, its transferred length and its counts, the buffer only for
-- an IN endpoint with data, and for every packet, in order, the error number of its status and its
-- transferred length as 32 bits.
pub giveback_request-iso :
    (e : Errno) (k : Header) (urb : Urb) (ps : List IsoPacket)
    → is_iso k urb.type ≡ true
    → urb.iso_packets ≡ some ps
    → urb.packet_count ≡ pos (length ps)
    → giveback_request e k true urb ≡ some (sent_request e ps urb)
unfolding giveback_request is_in
giveback_request-iso e k urb ps iso at_packets counted =
    ground (arith, give_packets_lem e (length ps) ps, give_packets-sent e ps)

-- The result is 0 exactly when the kernel takes the URB back or has canceled it meanwhile.
giveback_result-zero_iff :
    (e : Errno) (reply : Reply (Unit {0}))
    → ((giveback_result e reply).value ≡ pos 0)
      ↔ ((reply ≡ answer tt) ⊎ (reply ≡ failed e.ecanceled))
unfolding giveback_result
giveback_result-zero_iff e (answer u) = (λ _. inl refl, λ _. refl)
giveback_result-zero_iff e (failed code) = (λ h. ground arith, λ h. ground arith)

give_packets-total :
    (e : Errno) (n : ℕ) (ps : List IsoPacket) → n ≤ length ps → is_some (give_packets e n ps) ≡ true
unfolding give_packets
give_packets-total e zero ps room = refl
give_packets-total e (suc n) [] room = absurd (omega arith)
give_packets-total e (suc n) (p ∷ ps) room = ground (arith, give_packets-total e n ps (omega arith))

-- With memory, a URB that has the packets it counts is given back under its handle.
pub giveback_request-total :
    (e : Errno) (k : Header) (u : Urb)
    → pos_part u.packet_count ≤ length (pointee u.iso_packets)
    → (gb : IocGiveback) × (giveback_request e k true u ≡ some gb) × (gb.handle ≡ u.handle)
unfolding giveback_request
giveback_request-total e k u room = elim (Bool-cases (is_iso k u.type)) [
  | inr other ↦ rw other (_, refl, refl)
  | inl iso ↦
      elim (Option-cases (give_packets e (pos_part u.packet_count) (pointee u.iso_packets))) [
        | inl out ↦ absurd (
            ground
              (arith, give_packets-total e (pos_part u.packet_count) (pointee u.iso_packets) room))
        | inr (ps, all) ↦ (
          record (plain_giveback e k u) {
            iso_packets = some ps;
            packet_count = u.packet_count;
            error_count = u.error_count;
          },
          rw iso (rw (all, giveback_request) (ground arith)),
          refl,
        )
      ]
]
