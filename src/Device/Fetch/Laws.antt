-- ===== src/Device/Fetch/Laws.antt =====
-- What `usb_vhci_fetch_work_timeout` and `usb_vhci_fetch_data` leave in the caller's structures.
use usb_vhci_libusb.Prelude.{
  if_both, ℕ, zero, suc, ◌≡◌, refl, Bool, true, ◌&&◌, ◌||◌, arith, ◌==◌, if◌then◌else◌, bit_and,
  bit_or, none, some, List, [], ◌∷◌, length, ℤ, pos, ◌≤◌, ap, ◌⊎◌, inl, inr, Option-cases, pos_part,
  Option,
}
use usb_vhci_libusb.Errno.{Errno}
use usb_vhci_libusb.Kernel.{Header, IsHeader}
use usb_vhci_libusb.Status
use usb_vhci_libusb.Urb.{Urb, IsoPacket, is_out, is_iso, is_int, is_control, is_bulk}
use usb_vhci_libusb.Device.{Reply, failed, answer, Returned, returns, minus_one}
use usb_vhci_libusb.Device.Fetch.{
  IocUrb, IocWork, UsbWork, urb_payload, nonzero, fetch_work_timeout, fetch_work, fetch_urb, fill,
  port_stat_payload, handle_payload, pointee, store_packets, IocData, copy_packets, fetch_data,
}

-- The URB that the kernel's work describes, field by field: what belongs to one type of transfer is
-- 0 in the others, and a transfer towards the device or an isochronous one has its whole buffer
-- filled.
abbrev pub described : Header → IocWork → Urb
described k w = record {
  handle = w.handle;
  buffer = none;
  iso_packets = none;
  buffer_length = w.urb.buffer_length;
  buffer_actual =
      if is_out w.urb.endpoint || is_iso k w.urb.type then w.urb.buffer_length else pos 0;
  packet_count = if is_iso k w.urb.type then w.urb.packet_count else pos 0;
  error_count = pos 0;
  status = Status.pending;
  interval = if is_iso k w.urb.type || is_int k w.urb.type then w.urb.interval else pos 0;
  flags =
      if is_bulk k w.urb.type
      then bit_and w.urb.flags (bit_or k.urb_flags_short_not_ok k.urb_flags_zero_packet)
      else 0;
  w_value = if is_control k w.urb.type then w.urb.w_value else 0;
  w_index = if is_control k w.urb.type then w.urb.w_index else 0;
  w_length = if is_control k w.urb.type then w.urb.w_length else 0;
  bm_request_type = if is_control k w.urb.type then w.urb.bm_request_type else 0;
  b_request = if is_control k w.urb.type then w.urb.b_request else 0;
  devadr = w.urb.address;
  epadr = w.urb.endpoint;
  type = w.urb.type;
}

abbrev pub is_known : Header → ℕ → Bool
is_known k type = is_iso k type || (is_int k type || (is_control k type || is_bulk k type))

abbrev pub needs_data : Header → IocUrb → Bool
needs_data k w =
    (is_out w.endpoint || is_iso k w.type) && nonzero w.buffer_length
    || is_iso k w.type && nonzero w.packet_count

-- A URB of a known type is handed on as described, with all that the kernel did not set cleared;
-- the result is 1 exactly when there is data to fetch: a non-empty buffer of a transfer towards the
-- device or of an isochronous one, or isochronous packets. The URB types must have distinct
-- numbers.
pub fetch_work_timeout-urb :
    (e : Errno) (k : Header) (w : IocWork) (work : UsbWork)
    → IsHeader k
    → w.type ≡ k.work_type_process_urb
    → is_known k w.urb.type ≡ true
    → fetch_work_timeout e k (answer w) work
      ≡ returns
          (if needs_data k w.urb then pos 1 else pos 0)
          (record { payload = urb_payload (described k w); type = k.work_type_process_urb })
unfolding fetch_work_timeout
fetch_work_timeout-urb e k w work h t known = ground (arith, h.urb_types, h.work_types)

-- A work that the library understands: one of the three types, and a URB of one of the four.
abbrev pub is_valid : Header → IocWork → Bool
is_valid k w =
    w.type == k.work_type_port_stat
    || (w.type == k.work_type_process_urb && is_known k w.urb.type
        || w.type == k.work_type_cancel_urb)

-- The result of every answer of the kernel, for distinct work types and URB types: a work that is
-- not understood is refused with -1 and EBADMSG and leaves the type of the caller's structure; any
-- other sets that type to its own and `errno` to nothing, with the result 1 for a URB with data to
-- fetch and 0 otherwise.
fetch_work_timeout-answers :
    (e : Errno) (k : Header) (w : IocWork) (work : UsbWork)
    → IsHeader k
    → ((fetch_work_timeout e k (answer w) work).value ≡ (
        if is_valid k w
        then if w.type == k.work_type_process_urb && needs_data k w.urb then pos 1 else pos 0
        else minus_one))
      × ((fetch_work_timeout e k (answer w) work).errno
          ≡ (if is_valid k w then none else some e.ebadmsg))
      × ((fetch_work_timeout e k (answer w) work).output.type
          ≡ (if is_valid k w then w.type else work.type))
unfolding fetch_work_timeout
fetch_work_timeout-answers e k w work h = (
  ground (arith, h.urb_types, h.work_types),
  ground (arith, h.urb_types, h.work_types),
  ground (arith, h.urb_types, h.work_types),
)

-- The packet that `usb_vhci_fetch_data` stores for one of the kernel.
abbrev pub fresh_packet : ℕ × ℤ → IsoPacket
fresh_packet p = record {
  offset = p.0;
  packet_length = p.1;
  packet_actual = pos 0;
  status = Status.pending;
}

-- The member of the union that was written is the one that the type tells.
abbrev pub Tagged : Header → UsbWork → Type 0
Tagged k w = elim (w.payload) [
  | port_stat_payload index ps ↦ w.type ≡ k.work_type_port_stat
  | urb_payload u ↦ w.type ≡ k.work_type_process_urb
  | handle_payload handle ↦ w.type ≡ k.work_type_cancel_urb
]

-- The call failed, or its output is tagged.
abbrev pub IsTagged : Header → Returned UsbWork → Type 0
IsTagged k r = (r.value ≡ minus_one) ⊎ Tagged k r.output

module _ (e : Errno) (k : Header) where
  fetch_urb-IsTagged : (w : IocWork) (work : UsbWork) → IsTagged k (fetch_urb e k w work)
  unfolding fetch_urb
  fetch_urb-IsTagged w work = elim (Option-cases (fill k w.urb)) [
    | inl unknown ↦ inl (rw (unknown, fetch_urb) refl)
    | inr (u, known) ↦ inr (rw (known, fetch_urb) refl)
  ]

  fetch_work_timeout-IsTagged :
      (reply : Reply IocWork) (work : UsbWork) → IsTagged k (fetch_work_timeout e k reply work)
  unfolding fetch_work_timeout
  fetch_work_timeout-IsTagged (failed code) work = inl refl
  fetch_work_timeout-IsTagged (answer w) work =
      if_both (IsTagged k) (w.type == k.work_type_port_stat) (inr refl) (
        if_both (IsTagged k) (w.type == k.work_type_process_urb) (fetch_urb-IsTagged w work)
          (if_both (IsTagged k) (w.type == k.work_type_cancel_urb) (inr refl) (inl refl)))

  pub fetch_work-IsTagged :
      (ioctl : ℤ → Reply IocWork) (work : UsbWork) → IsTagged k (fetch_work e k ioctl work)
  unfolding fetch_work
  fetch_work-IsTagged ioctl work = fetch_work_timeout-IsTagged (ioctl (pos 100)) work

-- With memory and as many packets on both sides as the URB counts, or more, FETCHDATA returns, and
-- changes nothing but the content of the arrays.
copy_packets-total :
    (n : ℕ) (from : List (ℕ × ℤ)) (to : List IsoPacket)
    → n ≤ length from
    → n ≤ length to
    → (ps : List IsoPacket) × (copy_packets n from to ≡ some ps) × (length ps ≡ length to)
unfolding copy_packets
copy_packets-total zero from to room room' = (to, refl, refl)
copy_packets-total (suc n) [] to room room' = absurd (omega arith)
copy_packets-total (suc n) (p ∷ from) [] room room' = absurd (omega arith)
copy_packets-total (suc n) ((offset, len) ∷ from) (q ∷ to) room room' =
    let (ps, all, same) = copy_packets-total n from to (omega arith) (omega arith) in
    (
      record {
        offset = offset;
        packet_length = len;
        packet_actual = pos 0;
        status = Status.pending;
      }
          ∷ ps,
      rw (all, copy_packets) refl,
      ap suc same,
    )

length-store_packets :
    (o : Option (List IsoPacket)) (ps : List IsoPacket)
    → length ps ≡ length (pointee o)
    → length (pointee (store_packets o ps)) ≡ length (pointee o)
length-store_packets none ps same = refl
length-store_packets (some old) ps same = same

pub fetch_data-total :
    (d : IocData) (u : Urb)
    → pos_part u.packet_count ≤ length d.packets
    → pos_part u.packet_count ≤ length (pointee u.iso_packets)
    → (packets : Option (List IsoPacket)) × (fetch_data true (answer d) u
        ≡ some (returns (pos 0) (record u { buffer = d.bytes; iso_packets = packets })))
      × (length (pointee packets) ≡ length (pointee u.iso_packets))
unfolding fetch_data
fetch_data-total d u room room' =
    let (ps, all, same) =
      copy_packets-total (pos_part u.packet_count) d.packets (pointee u.iso_packets) room room' in
    (
      store_packets u.iso_packets ps,
      rw (all, fetch_data) (ground arith),
      length-store_packets u.iso_packets ps same,
    )
