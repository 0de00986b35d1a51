-- ===== src/Example/Answering.antt =====
-- The example answers every URB that has room for what it asks for, and keeps what GIVEBACK needs
-- of it.
use usb_vhci_libusb.Prelude.{
  if_both, ℕ, ◌/◌, ◌%◌, ◌^◌, ◌≡◌, ◌≤◌, refl, false, ◌==◌, ◌&&◌, not, ltb, arith, if◌then◌else◌, has,
  Option, none, some, List, [], length, ap, ◌∙◌, Bool-cases, Option-cases, inl, inr, ℤ, pos,
}
use mathlib.Core.Option.{some-injective}
use usb_vhci_libusb.Kernel.{Header}
use usb_vhci_libusb.Status
use usb_vhci_libusb.Urb.{Urb, is_control}
use usb_vhci_libusb.Example.{
  send_descriptor, send_string, get_descriptor, process_urb, respond, is_set_address, dev_desc,
  conf_desc, str0_desc, str1_desc, stalled, rq_set_configuration, rq_set_interface,
  rq_get_descriptor,
}
use usb_vhci_libusb.Example.Laws.{sends}

-- The bytes that a pointer stands for: none at NULL.
abbrev pub content : Option (List ℕ) → List ℕ
content none = []
content (some bytes) = bytes

-- The buffer has the length that the request names.
abbrev pub HasRoom : Urb → Type 0
HasRoom u = u.w_length ≤ length (content u.buffer)

pub record Keeps (u v : Urb) : Type 0 where
  pub handle : v.handle ≡ u.handle
  pub packet_count : v.packet_count ≡ u.packet_count
  pub iso_packets : v.iso_packets ≡ u.iso_packets

abbrev Answers : Urb → Option Urb → Type 0
Answers u r = (v : Urb) × (r ≡ some v) × Keeps u v

kept : (u : Urb) → Keeps u u
kept u = record { handle = refl; packet_count = refl; iso_packets = refl }

send_descriptor-Answers :
    (size : ℕ) (desc : List ℕ) (u : Urb)
    → size ≤ length desc
    → HasRoom u
    → Answers u (send_descriptor size desc u)
send_descriptor-Answers size desc u fits room = elim (Option-cases u.buffer) [
  | inl null ↦ (
    record u { buffer = none; buffer_actual = pos 0; status = Status.success },
    unfold send_descriptor in ground (arith, null),
    record { handle = refl; packet_count = refl; iso_packets = refl },
  )
  | inr (to, at_buffer) ↦ (
    _,
    sends size desc u to fits at_buffer (rw at_buffer at room),
    record { handle = refl; packet_count = refl; iso_packets = refl },
  )
]

stalled-Answers : (u : Urb) → Answers u (some (stalled u))
stalled-Answers u =
    (stalled u, refl, record { handle = refl; packet_count = refl; iso_packets = refl })

acknowledged-Answers : (u : Urb) → Answers u (some (record u { status = Status.success }))
acknowledged-Answers u =
    (_, refl, record { handle = refl; packet_count = refl; iso_packets = refl })

send_string-Answers : (u : Urb) → HasRoom u → Answers u (send_string u)
unfolding send_string
send_string-Answers u room =
    if_both (Answers u) (u.w_value % 2 ^ 8 == 0)
      (send_descriptor-Answers 4 str0_desc u (omega arith) room)
      (if_both (Answers u) (u.w_value % 2 ^ 8 == 1)
        (send_descriptor-Answers 0x1a str1_desc u (omega arith) room) (stalled-Answers u))

-- The case of the strings falls through into the default.
string-Answers :
    (u : Urb) (r : Option Urb)
    → Answers u r
    → Answers u (elim r as (λ x. Option Urb) [ none ↦ none | some v ↦ some (stalled v) ])
string-Answers u none (v, e, keeps) = absurd (ground (arith, e))
string-Answers u (some w) (v, e, keeps) = (
  stalled w,
  refl,
  record {
    handle = ap (λ (x : Urb). x.handle) (some-injective w v e) ∙ keeps.handle;
    packet_count = ap (λ (x : Urb). x.packet_count) (some-injective w v e) ∙ keeps.packet_count;
    iso_packets = ap (λ (x : Urb). x.iso_packets) (some-injective w v e) ∙ keeps.iso_packets;
  },
)

get_descriptor-Answers : (u : Urb) → HasRoom u → Answers u (get_descriptor u)
unfolding get_descriptor
get_descriptor-Answers u room =
    if_both (Answers u) (u.w_value / 2 ^ 8 == 1)
      (send_descriptor-Answers 18 dev_desc u (omega arith) room)
      (if_both (Answers u) (u.w_value / 2 ^ 8 == 2)
        (send_descriptor-Answers 18 conf_desc u (omega arith) room)
        (if_both (Answers u) (u.w_value / 2 ^ 8 == 3)
          (string-Answers u (send_string u) (send_string-Answers u room)) (stalled-Answers u)))

process_urb-Answers : (k : Header) (u : Urb) → HasRoom u → Answers u (process_urb k u)
unfolding process_urb
process_urb-Answers k u room =
    if_both (Answers u) (not (is_control k u.type)) (u, refl, kept u)
      (if_both (Answers u) (has u.epadr 0x7f) (stalled-Answers u) (
        if_both (Answers u) (u.bm_request_type == 0x00 && u.b_request == rq_set_configuration)
          (acknowledged-Answers u)
          (if_both (Answers u) (u.bm_request_type == 0x00 && u.b_request == rq_set_interface)
            (acknowledged-Answers u)
            (if_both (Answers u) (u.bm_request_type == 0x80 && u.b_request == rq_get_descriptor)
              (get_descriptor-Answers u room) (stalled-Answers u)))))

-- The device's address after a URB for it.
abbrev pub address_of : Header → Urb → ℕ → ℕ
address_of k u adr = if is_set_address k u && not (ltb 0x7f u.w_value) then u.w_value else adr

abbrev pub Responds : Header → Urb → ℕ → Type 0
Responds k u adr = (v : Urb) × (respond k u adr ≡ some (v, address_of k u adr)) × Keeps u v

-- A URB with room is answered, and its answer decides on the device's address.
pub respond-Responds : (k : Header) (u : Urb) (adr : ℕ) → HasRoom u → Responds k u adr
unfolding respond
respond-Responds k u adr room = elim (Bool-cases (is_set_address k u)) [
  | inl asks ↦ elim (Bool-cases (ltb 0x7f u.w_value)) [
    | inl large ↦ (stalled u, rw (asks, large) refl, kept_but Status.stall)
    | inr small ↦ (
      record u { status = Status.success },
      rw (asks, small) (rw (low small) refl),
      kept_but Status.success,
    )
  ]
  | inr other ↦
      let (v, runs, keeps) = process_urb-Answers k u room in
      (v, rw other (rw (runs, respond) refl), keeps)
]
  where
    kept_but : (value : ℤ) → Keeps u (record u { status = value })
    kept_but value = record { handle = refl; packet_count = refl; iso_packets = refl }

    low : ltb 0x7f u.w_value ≡ false → u.w_value % 2 ^ 8 ≡ u.w_value
    low small = ground arith
