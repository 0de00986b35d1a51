-- ===== src/Urb/Object/Build.antt =====
-- The constructor of `usb::urb` from single values.
use usb_vhci_libusb.Prelude.{
  ℕ, ◌≡◌, Bool, true, ◌&&◌, ◌||◌, not, ◌==◌, if◌then◌else◌, arith, is_some, Option, none, some,
  List, ℤ, pos, negsuc, ==ℤ_iff,
}
use usb_vhci_libusb.Kernel.{Header, IsHeader}
use usb_vhci_libusb.Urb.{Urb, IsoPacket, zeroed, is_iso, is_int, is_control, is_bulk}
use usb_vhci_libusb.Outcome.{Result, ok, raised, invalid_argument, bad_alloc}
use usb_vhci_libusb.Urb.Object.{UrbMemory, is_zero, duplicate, ◌>>=◌}

-- Its arguments.
pub record Arguments : Type 0 where
  pub handle : ℕ
  pub type : ℕ
  pub buffer_length : ℤ
  pub buffer : Option (List ℕ)
  pub own_buffer : Bool
  pub iso_packet_count : ℤ
  pub iso_packets : Option (List IsoPacket)
  pub own_iso_packets : Bool
  pub buffer_actual : ℤ
  pub status : ℤ
  pub error_count : ℤ
  pub flags : ℕ
  pub interval : ℕ
  pub devadr : ℕ
  pub epadr : ℕ
  pub bm_request_type : ℕ
  pub b_request : ℕ
  pub w_value : ℕ
  pub w_index : ℕ
  pub w_length : ℕ

-- The assignments before the checks.
abbrev pub started : Arguments → Urb
started a = record zeroed {
  handle = a.handle;
  buffer_length = a.buffer_length;
  buffer_actual = a.buffer_actual;
  status = a.status;
  flags = a.flags;
  interval = pos a.interval;
  devadr = a.devadr;
  epadr = a.epadr;
}

abbrev pub has_setup : Arguments → Bool
has_setup a =
    not (a.bm_request_type == 0)
    || (not (a.b_request == 0)
        || (not (a.w_value == 0) || (not (a.w_index == 0) || not (a.w_length == 0))))

abbrev pub has_iso : Arguments → Bool
has_iso a =
    not (is_zero a.iso_packet_count) || (is_some a.iso_packets || not (is_zero a.error_count))

-- The `switch` on the type.
unfoldable pub typed : Header → UrbMemory → Arguments → Urb → Result Urb
typed k m a u =
    if is_iso k a.type
    then (let v = record u {
      type = k.urb_type_iso;
      packet_count = a.iso_packet_count;
      error_count = a.error_count;
    } in
        if is_zero a.iso_packet_count
        then ok v
        else if is_zero a.buffer_length
        then raised invalid_argument
        else if not (is_some a.iso_packets)
        then raised invalid_argument
        else if a.own_iso_packets
        then ok (record v { iso_packets = a.iso_packets })
        else (duplicate m.new_packets a.iso_packet_count a.iso_packets >>= λ ps.
            ok (record v { iso_packets = ps })))
    else if is_int k a.type
    then ok (record u { type = k.urb_type_int })
    else if is_control k a.type
    then ok (record u {
      type = k.urb_type_control;
      bm_request_type = a.bm_request_type;
      b_request = a.b_request;
      w_value = a.w_value;
      w_index = a.w_index;
      w_length = a.w_length;
    })
    else if is_bulk k a.type
    then if not (a.interval == 0)
      then raised invalid_argument
      else ok (record u { type = k.urb_type_bulk })
    else raised invalid_argument

-- `new uint8_t[n]`.
unfoldable pub fresh_bytes : UrbMemory → ℤ → Result (Option (List ℕ))
fresh_bytes m (negsuc n) = raised bad_alloc
fresh_bytes m (pos n) = elim (m.new_bytes n) [
  | none ↦ raised bad_alloc
  | some bytes ↦ ok (some bytes)
]

unfoldable pub with_buffer : UrbMemory → Arguments → Urb → Result Urb
with_buffer m a u =
    if is_zero a.buffer_length
    then ok u
    else if is_some a.buffer
    then if a.own_buffer
      then ok (record u { buffer = a.buffer })
      else (duplicate m.new_bytes a.buffer_length a.buffer >>= λ bytes.
          ok (record u { buffer = bytes }))
    else (fresh_bytes m a.buffer_length >>= λ bytes. ok (record u { buffer = bytes }))

unfoldable pub build : Header → UrbMemory → Arguments → Result Urb
build k m a =
    if not (is_control k a.type) && has_setup a
    then raised invalid_argument
    else if not (is_iso k a.type) && has_iso a
    then raised invalid_argument
    else typed k m a (started a) >>= with_buffer m a

-- Which arguments are accepted.
abbrev pub accepts : Header → Arguments → Bool
accepts k a =
    (is_control k a.type || not (has_setup a))
    && ((is_iso k a.type || not (has_iso a))
        && ((is_iso k a.type
              && (is_zero a.iso_packet_count
                  || (not (is_zero a.buffer_length) && is_some a.iso_packets)))
            || (is_int k a.type || (is_control k a.type || (is_bulk k a.type && a.interval == 0)))))

-- The URB that consists of the arguments.
abbrev pub given : Arguments → Urb
given a = record {
  handle = a.handle;
  buffer = if is_zero a.buffer_length then none else a.buffer;
  iso_packets = if is_zero a.iso_packet_count then none else a.iso_packets;
  buffer_length = a.buffer_length;
  buffer_actual = a.buffer_actual;
  packet_count = a.iso_packet_count;
  error_count = a.error_count;
  status = a.status;
  interval = pos a.interval;
  flags = a.flags;
  w_value = a.w_value;
  w_index = a.w_index;
  w_length = a.w_length;
  bm_request_type = a.bm_request_type;
  b_request = a.b_request;
  devadr = a.devadr;
  epadr = a.epadr;
  type = a.type;
}

-- When the arrays are given to own, and there is a buffer unless its length is 0, the constructor
-- throws `invalid_argument` for values that do not belong to the type, and otherwise makes the URB
-- that consists of the values: only a control URB has setup values; only an isochronous one has
-- packets and errors, and it has both a buffer and packets if it counts any; a bulk one has no
-- interval. The URB types must have distinct numbers.
pub build-own :
    (k : Header) (m : UrbMemory) (a : Arguments)
    → IsHeader k
    → a.own_buffer ≡ true
    → a.own_iso_packets ≡ true
    → (is_zero a.buffer_length || is_some a.buffer) ≡ true
    → build k m a ≡ (if accepts k a then ok (given a) else raised invalid_argument)
unfolding build typed with_buffer
build-own k m a header own own' has_it =
    ground
      (arith, header.urb_types, ==ℤ_iff a.iso_packet_count (pos 0), ==ℤ_iff a.error_count (pos 0))
