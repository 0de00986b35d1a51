-- ===== src/Urb/Object/PacketAnswers.antt =====
-- A client answers the packets of an isochronous URB one by one, sums them up with
-- `set_iso_results` and gives the URB back.
use usb_vhci_libusb.Prelude.{
  ℕ, zero, suc, ◌+◌, ◌≡◌, ◌≢◌, ◌≤◌, ◌<◌, refl, sym, ap, ◌∙◌, true, arith, ◌==◌, if◌then◌else◌, some,
  List, [], ◌∷◌, All, length, get_elem?, get_elem?-inside, set, ℤ, pos, ◌==ℤ◌,
}
use mathlib.Core.Option.{some-injective}
use usb_vhci_libusb.Errno.{Errno}
use usb_vhci_libusb.Kernel.{Header}
use usb_vhci_libusb.Status
use usb_vhci_libusb.Urb.{Urb, IsoPacket, is_in, is_iso}
use usb_vhci_libusb.Outcome.{Result, ok}
use usb_vhci_libusb.Device.Giveback.{giveback_request}
use usb_vhci_libusb.Device.Giveback.Laws.{sent_request, giveback_request-iso}
use usb_vhci_libusb.Urb.Object.{◌>>=◌, pointee, set_iso_results}
use usb_vhci_libusb.Urb.Object.IsoResults.{failures, set_iso_results_lem}
use usb_vhci_libusb.Urb.Object.Members.{
  update_packet, set_iso_status, ack_iso, stall_iso, set_iso_packet_actual,
}

-- The calls with which a client answers a packet.
pub data PacketCall : Type 0 where
  call_ack : ℤ → PacketCall
  call_stall : ℤ → PacketCall
  call_status : ℤ → ℤ → PacketCall
  call_actual : ℤ → ℤ → PacketCall

abbrev pub call_packet : PacketCall → Urb → Result Urb
call_packet (call_ack j) = ack_iso j
call_packet (call_stall j) = stall_iso j
call_packet (call_status j v) = set_iso_status j v
call_packet (call_actual j v) = set_iso_packet_actual j v

abbrev pub call_packets : List PacketCall → Urb → Result Urb
call_packets [] u = ok u
call_packets (c ∷ calls) u = call_packet c u >>= call_packets calls

abbrev pub index_of : PacketCall → ℤ
index_of (call_ack j) = j
index_of (call_stall j) = j
index_of (call_status j v) = j
index_of (call_actual j v) = j

-- The call names one of `n` packets.
abbrev pub IsInside : ℕ → PacketCall → Type 0
IsInside n c = (j : ℕ) × (index_of c ≡ pos j) × (j < n)

-- What the packet at `i` has as its status and as its transferred length after the calls.
abbrev status_by : PacketCall → ℕ → ℤ → ℤ
status_by (call_ack j) i s = if j ==ℤ pos i then Status.success else s
status_by (call_stall j) i s = if j ==ℤ pos i then Status.stall else s
status_by (call_status j v) i s = if j ==ℤ pos i then v else s
status_by (call_actual j v) i s = s

abbrev pub last_status : List PacketCall → ℕ → ℤ → ℤ
last_status [] i s = s
last_status (c ∷ calls) i s = last_status calls i (status_by c i s)

abbrev actual_by : PacketCall → ℕ → ℤ → ℤ
actual_by (call_ack j) i a = a
actual_by (call_stall j) i a = a
actual_by (call_status j v) i a = a
actual_by (call_actual j v) i a = if j ==ℤ pos i then v else a

abbrev pub last_actual : List PacketCall → ℕ → ℤ → ℤ
last_actual [] i a = a
last_actual (c ∷ calls) i a = last_actual calls i (actual_by c i a)

abbrev pub answered : List PacketCall → ℕ → IsoPacket → IsoPacket
answered calls i p = record p {
  status = last_status calls i p.status;
  packet_actual = last_actual calls i p.packet_actual;
}

module _ {A : Type 0} where
  -- The function gets the place of each value, counted from the first number.
  abbrev pub map_from : (ℕ → A → A) → ℕ → List A → List A
  map_from f i [] = []
  map_from f i (x ∷ xs) = f i x ∷ map_from f (suc i) xs

  length-map_from : (f : ℕ → A → A) (i : ℕ) (xs : List A) → length (map_from f i xs) ≡ length xs
  length-map_from f i [] = refl
  length-map_from f i (x ∷ xs) = ap suc (length-map_from f (suc i) xs)

  map_from-map_from :
      (f g : ℕ → A → A) (i : ℕ) (xs : List A)
      → map_from g i (map_from f i xs) ≡ map_from (λ j x. g j (f j x)) i xs
  map_from-map_from f g i [] = refl
  map_from-map_from f g i (x ∷ xs) = rw (map_from-map_from f g (suc i) xs) refl

  map_from-id :
      (f : ℕ → A → A) (i : ℕ) (xs : List A)
      → ((j : ℕ) (x : A) → i ≤ j → f j x ≡ x)
      → map_from f i xs ≡ xs
  map_from-id f i [] same = refl
  map_from-id f i (x ∷ xs) same =
      rw (same i x (omega arith), map_from-id f (suc i) xs (λ j x l. same j x (omega (arith, l))))
        refl

  -- A function that changes only the place `i + j` is a write there.
  set-map_from :
      (f : ℕ → A → A) (i j n : ℕ) (xs : List A) (x : A)
      → n ≡ i + j
      → get_elem? xs j ≡ some x
      → ((m : ℕ) (y : A) → m ≢ n → f m y ≡ y)
      → set xs j (f n x) ≡ map_from f i xs
  set-map_from f i zero n (y ∷ xs) x at_place found same =
      rw
        (
          value found,
          here at_place,
          map_from-id f (suc i) xs (λ m z l. same m z (later at_place l)),
        )
        refl
    where
      value : some y ≡ some x → y ≡ x
      value e = some-injective y x e

      here : n ≡ i + 0 → n ≡ i
      here e = omega (arith, e)

      later : {m : ℕ} → n ≡ i + 0 → suc i ≤ m → m ≢ n
      later e l same = omega (arith, e, l, same)
  set-map_from f i (suc j) n (y ∷ xs) x at_place found same =
      rw
        (
          same i y (λ e. omega (arith, e, at_place)),
          set-map_from f (suc i) j n xs x (omega (arith, at_place)) found same,
        )
        refl
  set-map_from f i j n [] x at_place found same = absurd (ground (arith, found))

-- What the call assigns to its packet.
written : PacketCall → IsoPacket → IsoPacket
written (call_ack i) p = record p { status = Status.success }
written (call_stall i) p = record p { status = Status.stall }
written (call_status i v) p = record p { status = v }
written (call_actual i v) p = record p { packet_actual = v }

answered-same :
    (c : PacketCall) (j : ℕ) (p : IsoPacket)
    → index_of c ≡ pos j
    → answered (c ∷ []) j p ≡ written c p
unfolding written
answered-same (call_ack i) j p named = rw named (ground arith)
answered-same (call_stall i) j p named = rw named (ground arith)
answered-same (call_status i v) j p named = rw named (ground arith)
answered-same (call_actual i v) j p named = rw named (ground arith)

answered-other :
    (c : PacketCall) (j m : ℕ) (p : IsoPacket)
    → index_of c ≡ pos j
    → m ≢ j
    → answered (c ∷ []) m p ≡ p
answered-other (call_ack i) j m p named apart = rw named (ground (arith, apart))
answered-other (call_stall i) j m p named apart = rw named (ground (arith, apart))
answered-other (call_status i v) j m p named apart = rw named (ground (arith, apart))
answered-other (call_actual i v) j m p named apart = rw named (ground (arith, apart))

update_packet-written :
    (c : PacketCall) (u : Urb) (ps : List IsoPacket)
    → u.iso_packets ≡ some ps
    → IsInside (length ps) c
    → update_packet (written c) (index_of c) u
      ≡ ok (record u { iso_packets = some (map_from (answered (c ∷ [])) 0 ps) })
unfolding update_packet
update_packet-written c u ps at_packets (j, named, inside) =
    let (p, found) = get_elem?-inside ps j inside in
    let others =
      set-map_from (answered (c ∷ [])) 0 j j ps p (omega arith) found
        (λ m q. answered-other c j m q named) in
    rw (named, at_packets, update_packet)
      (rw (found, update_packet)
        (ap (λ qs. ok (record u { iso_packets = some qs }))
          (rw (sym (answered-same c j p named)) (rw (ap pointee at_packets) others))))

-- One call changes the packet that it names and no other.
call_packet-answers :
    (c : PacketCall) (u : Urb) (ps : List IsoPacket)
    → u.iso_packets ≡ some ps
    → IsInside (length ps) c
    → call_packet c u ≡ ok (record u { iso_packets = some (map_from (answered (c ∷ [])) 0 ps) })
unfolding written
call_packet-answers (call_ack i) u ps = update_packet-written (call_ack i) u ps
call_packet-answers (call_stall i) u ps = update_packet-written (call_stall i) u ps
call_packet-answers (call_status i v) u ps = update_packet-written (call_status i v) u ps
call_packet-answers (call_actual i v) u ps = update_packet-written (call_actual i v) u ps

-- After the calls, each packet is answered by those that name it.
call_packets-answers :
    (calls : List PacketCall) (u : Urb) (ps : List IsoPacket)
    → u.iso_packets ≡ some ps
    → All (IsInside (length ps)) calls
    → call_packets calls u ≡ ok (record u { iso_packets = some (map_from (answered calls) 0 ps) })
call_packets-answers [] u ps at_packets inside =
    rw (map_from-id (answered []) 0 ps (λ j p l. refl), at_packets) refl
call_packets-answers (c ∷ calls) u ps at_packets (here, later) =
    let qs = map_from (answered (c ∷ [])) 0 ps in
    rw
      (
        call_packet-answers c u ps at_packets here,
        call_packets-answers calls (record u { iso_packets = some qs }) qs refl
            (rw (length-map_from (answered (c ∷ [])) 0 ps) later),
        map_from-map_from (answered (c ∷ [])) (answered calls) 0 ps,
      )
      refl

-- The client may answer the packets of an isochronous URB in any order and more than once, as long
-- as it names packets that exist and the URB counts as many as it has. Then `set_iso_results`
-- succeeds and leaves the handle, the error count is the number of packets whose last status is not
-- SUCCESS, and with memory the request that gives the URB back carries, besides the members that
-- the URB then has, for each packet, in order, the error number of the status and the length that
-- were written to it last, or of those it had before.
pub answers_arrive :
    (e : Errno) (k : Header) (u : Urb) (ps : List IsoPacket) (calls : List PacketCall)
    → is_iso k u.type ≡ true
    → u.iso_packets ≡ some ps
    → u.packet_count ≡ pos (length ps)
    → All (IsInside (length ps)) calls
    → let qs = map_from (answered calls) 0 ps in
      (v : Urb) × ((call_packets calls u >>= set_iso_results k) ≡ ok v)
      × (v.handle ≡ u.handle)
      × (v.error_count ≡ pos (failures qs))
      × (giveback_request e k true v ≡ some (sent_request e qs v))
answers_arrive e k u ps calls iso at_packets counted inside =
    let qs = map_from (answered calls) 0 ps in
    let w = record u { iso_packets = some qs } in
    let counted' = counted ∙ ap pos (sym (length-map_from (answered calls) 0 ps)) in
    let v = record w {
      error_count = pos (failures qs);
      status = if failures qs == length qs then Status.all_iso_packets_failed else Status.success;
      buffer_actual = if is_in w.epadr then w.buffer_length else w.buffer_actual;
    } in
    (
      v,
      rw (call_packets-answers calls u ps at_packets inside)
          (set_iso_results_lem k w qs iso refl counted').0,
      refl,
      refl,
      giveback_request-iso e k v qs iso refl counted',
    )
