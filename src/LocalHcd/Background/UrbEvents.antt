-- ===== src/LocalHcd/Background/UrbEvents.antt =====
-- A URB of the kernel is filled and queued.
use usb_vhci_libusb.Prelude.{
  ℕ, ◌-◌, ◌≡◌, ◌≢◌, refl, sym, true, false, arith, ◌==◌, ==_refl, if◌then◌else◌, Option, none, some,
  [], ◌∷◌, ◌++◌, get_elem?, set, ==ℤ_iff, get_elem?-lt, get_elem?-set_self, get_elem?-set_ne, ltb,
  pos, not, ◌&&◌,
}
use usb_vhci_libusb.Kernel.{Header}
use usb_vhci_libusb.Status
use usb_vhci_libusb.Urb.{Urb, is_iso}
use usb_vhci_libusb.Urb.Object.{from_struct_own, chk}
use usb_vhci_libusb.Work.{Work, process_urb_work, object, new_process_urb_work}
use usb_vhci_libusb.Outcome.{done, ok, raised, invalid_argument}
use usb_vhci_libusb.Hcd.{enqueue_work, on_work_enqueued}
use usb_vhci_libusb.Hcd.Owned.{Owns}
use usb_vhci_libusb.Hcd.Laws.{Grows}
use usb_vhci_libusb.Hcd.Enqueue.{queued, queued-Grows}
use usb_vhci_libusb.Device.{Reply, Returned}
use usb_vhci_libusb.Device.Fetch.{IocData}
use usb_vhci_libusb.LocalHcd.{PortInfo, LocalHcd, Memory, port_from_address}
use usb_vhci_libusb.LocalHcd.Background.{
  finished, again, terminated, with_ports, or_new, UrbRound, Pass, with_arrays, load,
  is_set_address, apply_address, queue_urb, urb_attempt,
}

-- An isochronous URB with packets and no buffer terminates the process, whatever memory and the
-- kernel answer.
urb_attempt-empty_iso :
    (k : Header) (r : UrbRound) (p : Pass) (u : Urb) (h : LocalHcd)
    → is_iso k u.type ≡ true
    → u.packet_count ≢ pos 0
    → u.buffer_length ≡ pos 0
    → urb_attempt k r p u h ≡ terminated
unfolding urb_attempt from_struct_own chk
urb_attempt-empty_iso k r p u h iso packets empty = rw (refused, urb_attempt)
  where
    refused : from_struct_own k r.urb_memory (with_arrays r u) true ≡ raised invalid_argument
    refused = ground (arith, (==ℤ_iff u.packet_count (pos 0)).0)

-- What SET_ADDRESS makes of the URB: an address above 0x7f is stalled, another one acknowledged.
abbrev pub answered : Header → Urb → Urb
answered k u =
    if is_set_address k u
    then record u { status = if ltb 0x7f u.w_value then Status.stall else Status.success }
    else u

-- The address of the port afterwards.
abbrev pub address_after : Header → Urb → ℕ → ℕ
address_after k u adr = if is_set_address k u && not (ltb 0x7f u.w_value) then u.w_value else adr

pub apply_address_lem :
    (k : Header) (u : Urb) (adr : ℕ) → apply_address k u adr ≡ (answered k u, address_after k u adr)
unfolding apply_address
apply_address_lem k u adr = ground arith

abbrev pub urb_work : Header → ℕ → Urb → Work
urb_work k index v = record {
  port = index;
  canceled = false;
  kind = process_urb_work (answered k v);
}

abbrev pub handed_in : Header → ℕ → Urb → PortInfo → ℕ → LocalHcd → LocalHcd
handed_in k index v info q h =
    with_ports (λ ps. set ps (index - 1) (record info { adr = address_after k v info.adr }))
      (queued q (urb_work k index v) h)

pub new_urb_work :
    (k : Header) (index : ℕ) (v : Urb)
    → index ≢ 0
    → new_process_urb_work index (some (answered k v)) ≡ object (urb_work k index v)
unfolding new_process_urb_work
new_urb_work k index v named = ground arith

pub not_zero : (n : ℕ) → n ≢ 0 → (n == 0) ≡ false
not_zero n h = ground arith

pub queue_urb_runs :
    (k : Header) (puw : Option ℕ) (m : Memory) (devadr : ℕ) (v : Urb) (h : LocalHcd) (index q : ℕ)
    (info : PortInfo)
    → port_from_address devadr h ≡ done index h
    → index ≢ 0
    → get_elem? h.derived.port_info (index - 1) ≡ some info
    → or_new puw (m.new_address h.store) ≡ some q
    → m.fits ≡ true
    → queue_urb k puw m devadr v h ≡ finished (handed_in k index v info q h)
unfolding queue_urb enqueue_work on_work_enqueued
queue_urb_runs k puw m devadr v h index q info at_address named at_port a f =
    rw (at_address, queue_urb)
      (rw (not_zero index named) (
        rw (a, queue_urb)
          (rw (at_port, queue_urb)
            (rw (apply_address_lem k v info.adr, queue_urb)
              (rw (new_urb_work k index v named, queue_urb)
                (rw f (rw (apply_address_lem k v info.adr))))))))

-- A pass that finds memory, after the URB was filled without an error, queues one work at the end
-- of the inbox, for the port that `port_from_address` answers for the URB's device address, with
-- the filled URB. A SET_ADDRESS is answered here: an address above 0x7f is stalled and changes
-- nothing, and any other is acknowledged and becomes the port's address. Other URBs are queued as
-- they are, no other port's record changes, and the ownership and every other object stay.
pub urb_attempt-queues :
    (k : Header) (r : UrbRound) (p : Pass) (u v : Urb) (h : LocalHcd) (index q j : ℕ)
    (info : PortInfo) (fetched : Returned Urb)
    → Owns h
    → h.store q ≡ none
    → from_struct_own k r.urb_memory (with_arrays r u) true ≡ ok v
    → load r p.res v ≡ some fetched
    → fetched.value ≡ pos 0
    → port_from_address u.devadr h ≡ done index h
    → index ≢ 0
    → get_elem? h.derived.port_info (index - 1) ≡ some info
    → or_new p.puw (r.memory.new_address h.store) ≡ some q
    → r.memory.fits ≡ true
    → j ≢ index - 1
    → (t : LocalHcd) × (urb_attempt k r p u h ≡ finished t)
      × Grows (λ o. Unit {0}) h t
      × (t.inbox ≡ h.inbox ++ q ∷ [])
      × (t.store q ≡ some (urb_work k index fetched.output))
      × (get_elem? t.derived.port_info (index - 1)
          ≡ some (record info { adr = address_after k fetched.output info.adr }))
      × (get_elem? t.derived.port_info j ≡ get_elem? h.derived.port_info j)
unfolding urb_attempt
urb_attempt-queues k r p u v h index q j info fetched own fresh built filled fine at_address named
      at_port a f other =
    (
      handed_in k index fetched.output info q h,
      rw (built, urb_attempt)
          (rw (filled, urb_attempt)
            (rw fine (
              queue_urb_runs k p.puw r.memory u.devadr fetched.output h index q info at_address
                named at_port a f))),
      record {
        owns = grown.owns;
        sound = λ p o e. tt;
        same_processing = grown.same_processing;
        added = grown.added;
        same_objects = grown.same_objects;
      },
      refl,
      ground (arith, ==_refl q),
      get_elem?-set_self h.derived.port_info (index - 1) _
          (get_elem?-lt h.derived.port_info (index - 1) at_port),
      get_elem?-set_ne h.derived.port_info _ (λ e. other (sym e)),
    )
  where
    grown : Grows (λ o. Unit {0}) h (queued q (urb_work k index fetched.output) h)
    grown =
        queued-Grows (λ o. Unit {0}) q (urb_work k index fetched.output) h fresh own (λ p o e. tt)
          tt

pub urb_attempt-again :
    (k : Header) (r : UrbRound) (p : Pass) (u : Urb) (h t : LocalHcd) (p' : Pass)
    → urb_attempt k r p u h ≡ again p' t
    → p'.res ≡ pos 0
unfolding urb_attempt queue_urb
urb_attempt-again k r p u h t p' e = ground arith

-- A pass that is made again after a failed allocation fetches no data: the kernel's answer to
-- FETCHDATA in the later pass makes no difference, whatever that pass meets.
urb_attempt-again_ignores_data :
    (k : Header) (r s : UrbRound) (p p' : Pass) (u : Urb) (h t g : LocalHcd)
    (one other : Reply IocData)
    → urb_attempt k r p u h ≡ again p' t
    → urb_attempt k (record s { reply = one }) p' u g
      ≡ urb_attempt k (record s { reply = other }) p' u g
unfolding urb_attempt load
urb_attempt-again_ignores_data k r s p p' u h t g one other e =
    rw (urb_attempt-again k r p u h t p' e)
