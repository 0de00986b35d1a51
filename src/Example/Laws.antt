-- ===== src/Example/Laws.antt =====
-- What the example answers to the kernel.
use usb_vhci_libusb.Prelude.{
  ℕ, zero, suc, ◌/◌, ◌%◌, ◌^◌, ◌≡◌, ◌≤◌, refl, ap, ◌∙◌, true, false, ◌==◌, ltb, arith, take, drop,
  if◌then◌else◌, has, Option, none, some, List, [], ◌∷◌, ◌++◌, length, pos, Bool-cases, ◌⊎◌, inl,
  inr, sym,
}
use mathlib.Core.Option.{some-injective}
use usb_vhci_libusb.Kernel.{Header}
use usb_vhci_libusb.Status
use usb_vhci_libusb.Urb.{Urb, is_control}
use usb_vhci_libusb.Example.{
  memcpy, send_descriptor, send_string, get_descriptor, process_urb, dev_desc, conf_desc, str0_desc,
  str1_desc, stalled,
}

memcpy_lem :
    (n : ℕ) (from to : List ℕ)
    → n ≤ length from
    → n ≤ length to
    → memcpy n from to ≡ some (take n from ++ drop n to)
unfolding memcpy
memcpy_lem zero from to h h' = refl
memcpy_lem (suc n) [] to h h' = absurd (omega arith)
memcpy_lem (suc n) (x ∷ from) [] h h' = absurd (omega arith)
memcpy_lem (suc n) (x ∷ from) (y ∷ to) h h' =
    rw (memcpy_lem n from to (omega arith) (omega arith), memcpy)

-- The descriptors that the device has, by their kind.
abbrev pub descriptor : ℕ → Option (List ℕ)
descriptor kind = if kind == 1 then some dev_desc else if kind == 2 then some conf_desc else none

-- A request for a descriptor from endpoint 0.
pub record Asks (k : Header) (u : Urb) (kind : ℕ) : Type 0 where
  pub control : is_control k u.type ≡ true
  pub endpoint : has u.epadr 0x7f ≡ false
  pub to_host : u.bm_request_type ≡ 0x80
  pub request : u.b_request ≡ 6
  pub of_kind : u.w_value / 2 ^ 8 ≡ kind

Asks-process_urb :
    (k : Header) (u : Urb) (kind : ℕ) → Asks k u kind → process_urb k u ≡ get_descriptor u
unfolding process_urb
Asks-process_urb k u kind asks = rw (asks.control, asks.endpoint, asks.to_host, asks.request) refl

-- How much of a descriptor of `size` bytes is sent.
abbrev pub sent : ℕ → Urb → ℕ
sent size u = if ltb size u.w_length then size else u.w_length

pub sends :
    (size : ℕ) (desc : List ℕ) (u : Urb) (to : List ℕ)
    → size ≤ length desc
    → u.buffer ≡ some to
    → u.w_length ≤ length to
    → send_descriptor size desc u
      ≡ some (record u {
        buffer = some (take (sent size u) desc ++ drop (sent size u) to);
        buffer_actual = pos (sent size u);
        status = Status.success;
      })
unfolding send_descriptor
sends size desc u to fits at_buffer room =
    rw (at_buffer, send_descriptor)
      (rw (memcpy_lem (sent size u) desc to (ground arith) (ground arith)))

kinds :
    (kind : ℕ) (desc : List ℕ)
    → descriptor kind ≡ some desc
    → ((kind ≡ 1) × (dev_desc ≡ desc)) ⊎ ((kind ≡ 2) × (conf_desc ≡ desc))
kinds kind desc e = elim (Bool-cases (kind == 1)) [
  | inl one ↦ inl (ground arith, some-injective dev_desc desc (rw one at e))
  | inr other ↦ elim (Bool-cases (kind == 2)) [
    | inl two ↦ inr (ground arith, some-injective conf_desc desc (rw two at (rw other at e)))
    | inr neither ↦ absurd (ground arith)
  ]
]

-- A request for the device's or the configuration's descriptor is answered with SUCCESS: the buffer
-- gets as many of the descriptor's bytes as were asked for and it has, this number is the
-- transferred length, the rest of the buffer and of the URB stays. The buffer must have the length
-- asked for.
pub process_urb-descriptor :
    (k : Header) (u : Urb) (kind : ℕ) (desc to : List ℕ)
    → Asks k u kind
    → descriptor kind ≡ some desc
    → u.buffer ≡ some to
    → u.w_length ≤ length to
    → process_urb k u
      ≡ some (record u {
        buffer = some (take (sent 18 u) desc ++ drop (sent 18 u) to);
        buffer_actual = pos (sent 18 u);
        status = Status.success;
      })
process_urb-descriptor k u kind desc to asks has_it at_buffer room =
    Asks-process_urb k u kind asks ∙ elim (kinds kind desc has_it) [
      | inl (one, is_desc) ↦ device (asks.of_kind ∙ one) ∙ sends' (ap length (sym is_desc)) is_desc
      | inr (two, is_desc) ↦
          configuration (asks.of_kind ∙ two) ∙ sends' (ap length (sym is_desc)) is_desc
    ]
  where
    device : u.w_value / 2 ^ 8 ≡ 1 → get_descriptor u ≡ send_descriptor 18 dev_desc u
    device e = unfold get_descriptor in rw e refl

    configuration : u.w_value / 2 ^ 8 ≡ 2 → get_descriptor u ≡ send_descriptor 18 conf_desc u
    configuration e = unfold get_descriptor in rw e refl

    sends' :
        {from : List ℕ}
        → length desc ≡ 18
        → from ≡ desc
        → send_descriptor 18 from u
          ≡ some (record u {
            buffer = some (take (sent 18 u) desc ++ drop (sent 18 u) to);
            buffer_actual = pos (sent 18 u);
            status = Status.success;
          })
    sends' size is_desc =
        ap (λ (d : List ℕ). send_descriptor 18 d u) is_desc
        ∙ sends 18 desc u to (omega arith) at_buffer room

send_descriptor-total :
    (size : ℕ) (desc : List ℕ) (u : Urb) (to : List ℕ)
    → size ≤ length desc
    → u.buffer ≡ some to
    → u.w_length ≤ length to
    → (v : Urb) × (send_descriptor size desc u ≡ some v)
send_descriptor-total size desc u to fits at_buffer room =
    (_, sends size desc u to fits at_buffer room)

send_string-total :
    (u : Urb) (to : List ℕ)
    → u.buffer ≡ some to
    → u.w_length ≤ length to
    → (v : Urb) × (send_string u ≡ some v)
unfolding send_string
send_string-total u to at_buffer room = elim (Bool-cases (u.w_value % 2 ^ 8 == 0)) [
  | inl languages ↦
      rw languages (send_descriptor-total 4 str0_desc u to (omega arith) at_buffer room)
  | inr other ↦ rw other (elim (Bool-cases (u.w_value % 2 ^ 8 == 1)) [
    | inl product ↦
        rw product (send_descriptor-total 0x1a str1_desc u to (omega arith) at_buffer room)
    | inr unknown ↦ (stalled u, rw unknown refl)
  ])
]

-- Every request for a string descriptor is stalled, also for the two strings that the device has:
-- the call returns, if the buffer has the length asked for, and the status is STALL.
process_urb-string_stalls :
    (k : Header) (u : Urb) (to : List ℕ)
    → Asks k u 3
    → u.buffer ≡ some to
    → u.w_length ≤ length to
    → (v : Urb) × (process_urb k u ≡ some v) × (v.status ≡ Status.stall)
unfolding get_descriptor
process_urb-string_stalls k u to asks at_buffer room =
    let (v, runs) = send_string-total u to at_buffer room in
    (stalled v, Asks-process_urb k u 3 asks ∙ rw asks.of_kind (rw (runs, get_descriptor)), refl)
