-- ===== src/LocalHcd/Ports/Going.antt =====
-- The passes of the background thread on a controller that can go on: what they need and what they
-- leave.
use usb_vhci_libusb.Prelude.{
  get_elem?-inside, length-append, ◌==◌, if◌then◌else◌, [], ◌∷◌, ℕ, ◌-◌, ◌+◌, ◌≡◌, ◌≢◌, ◌≤◌, ◌<◌,
  refl, sym, ◌∙◌, true, arith, Bool-cases, Option, none, some, inl, inr, get_elem?,
}
use usb_vhci_libusb.Errno.{Errno}
use usb_vhci_libusb.Kernel.{Header}
use usb_vhci_libusb.PortStat.{PortStat}
use usb_vhci_libusb.Urb.{Urb}
use usb_vhci_libusb.Work.{Work}
use usb_vhci_libusb.Outcome.{done}
use usb_vhci_libusb.Device.{minus_one, Returned}
use usb_vhci_libusb.Hcd.Owned.{count}
use usb_vhci_libusb.Hcd.Enqueue.{queued, queued-Grows}
use usb_vhci_libusb.Hcd.Session.{IsWell}
use usb_vhci_libusb.LocalHcd.{PortInfo, LocalHcd, Memory, IsFresh, port_from_address}
use usb_vhci_libusb.LocalHcd.Laws.{Sound, PacketsFit}
use usb_vhci_libusb.LocalHcd.Address.{FirstAt-get, port_from_address-cases}
use usb_vhci_libusb.LocalHcd.Background.{
  load, is_set_address, finished, or_new, Pass, UrbRound, with_arrays, queue_urb, urb_attempt,
}
use usb_vhci_libusb.LocalHcd.Background.Retry.{attempt_cases}
use usb_vhci_libusb.LocalHcd.Background.Patience.{queue_urb-cases, urb_attempt-queue_urb}
use usb_vhci_libusb.LocalHcd.Background.UrbEvents.{answered, handed_in, urb_work}
use usb_vhci_libusb.LocalHcd.Background.PortEvents.{event_work, recorded}
use usb_vhci_libusb.LocalHcd.Ports.{
  PortsWell, Call, hand, finish, cancel, add_callback, remove_callback, port_event, urb_event,
  leaves,
}
use usb_vhci_libusb.LocalHcd.Ports.Life.{IsApart}
use usb_vhci_libusb.Hcd.{is_urb}
use usb_vhci_libusb.LocalHcd.Account.{Balanced, for_urb}
use usb_vhci_libusb.LocalHcd.Account.Clients.{queued-Balanced}
use usb_vhci_libusb.LocalHcd.Account.Calls.{comes_in, Accounts, Keeps}
use usb_vhci_libusb.LocalHcd.Ports.Usable.{IsUsable, makes, load-cases}

-- What the library asks of a call: memory for the container of `next_work` and for `malloc` where a
-- URB is given back, that `new` answers unused addresses, a work in hand for `finish_work`, an index
-- that names a port, and a usable URB.
abbrev pub Meets : Header → Call → LocalHcd → Type 0
Meets k (hand fits) h = fits ≡ true
Meets k (finish m w) h = IsFresh m × (m.malloc ≡ true) × (0 < count w h.processing)
Meets k (cancel m handle) h = IsFresh m × (m.malloc ≡ true)
Meets k (add_callback fits c) h = Unit {0}
Meets k (remove_callback c) h = Unit {0}
Meets k (port_event index ps psw m) h =
    IsFresh m × IsApart psw h × (index ≢ 0) × (index ≤ h.port_count)
Meets k (urb_event r p u) h = IsFresh r.memory × IsApart p.puw h × IsUsable k r u

-- The containers own the works, and every work can be given back.
abbrev pub Runs : Header → LocalHcd → Type 0
Runs k = IsWell (Sound k) (λ v. Unit {0})

unused :
    (kept : Option ℕ) (m : Memory) (h : LocalHcd) (q : ℕ)
    → IsFresh m
    → IsApart kept h
    → or_new kept (m.new_address h.store) ≡ some q
    → h.store q ≡ none
unused none m h q fresh apart a = fresh h.store q a
unused (some p) m h q fresh apart a = apart q a

module _ (e : Errno) (k : Header) (count_of : ℕ) where
  -- The call returns or throws, and the object can go on.
  abbrev pub GoesOn : Call → LocalHcd → Type 0
  GoesOn c h = (t : LocalHcd) × (leaves e k c h ≡ some t) × Runs k t × Accounts c h t × Keeps c h t

  queued-Runs :
      (q : ℕ) (o : Work) (h : LocalHcd)
      → h.store q ≡ none
      → Runs k h
      → Sound k o
      → Runs k (queued q o h)
  queued-Runs q o h fresh runs sound =
      let grown = queued-Grows (Sound k) q o h fresh runs.owns runs.sound sound in
      record { owns = grown.owns; sound = grown.sound }

  pub port_event-GoesOn :
      (index : ℕ) (ps : PortStat) (psw : Option ℕ) (m : Memory) (h : LocalHcd)
      → PortsWell count_of h
      → Runs k h
      → Meets k (port_event index ps psw m) h
      → GoesOn (port_event index ps psw m) h
  port_event-GoesOn index ps psw m h ports runs (fresh, apart, named, inside) =
      let (info, at_port) = record_at in
      elim (attempt_cases k index ps named psw m h info at_port) [
        | inl (q, a, calls) ↦
            let new =
              queued-Runs q (event_work k index ps info) h (unused psw m h q fresh apart a) runs
                tt in
            (
              recorded k index ps info q h,
              rw calls refl,
              record { owns = new.owns; sound = new.sound },
              λ n. queued_event n q info (unused psw m h q fresh apart a),
              refl,
            )
        | inr (kept, calls, starved) ↦ (h, rw calls refl, runs, λ n. omega arith, refl)
      ]
    where
      queued_event :
          (n q : ℕ) (info : PortInfo)
          → h.store q ≡ none
          → Balanced n 0 h (recorded k index ps info q h)
      queued_event n q info unused_at =
          unfold is_urb in queued-Balanced n q (event_work k index ps info) h runs.owns unused_at

      record_at : (info : PortInfo) × (get_elem? h.derived.port_info (index - 1) ≡ some info)
      record_at =
          get_elem?-inside h.derived.port_info (index - 1)
            (ground (arith, ports.records, ports.ports, named, inside))

  queue_urb-GoesOn :
      (r : UrbRound) (p : Pass) (u v : Urb) (h : LocalHcd)
      → PortsWell count_of h
      → Runs k h
      → IsFresh r.memory
      → IsApart p.puw h
      → u.devadr ≤ 0x7f
      → PacketsFit v
      → v.handle ≡ u.handle
      → urb_attempt k r p u h ≡ queue_urb k p.puw r.memory u.devadr v h
      → GoesOn (urb_event r p u) h
  queue_urb-GoesOn r p u v h ports runs fresh apart small fits same calls =
      elim (port_from_address-cases u.devadr h (ports.records ∙ sym ports.ports)) [
        | inl (large, thrown) ↦ absurd (omega (arith, large, small))
        | inr (inl (low, (nowhere, no_port))) ↦
            (h, rw (calls ∙ idles nowhere) refl, runs, nothing, refl)
        | inr (inr (j, low, (found, first, back))) ↦
            let (info, at_port, is_it, inside) = FirstAt-get u.devadr j h.derived.port_info first in
            elim (queue_urb-cases k u (j + 1) info (λ z. omega (arith, z)) p.puw r.memory v h found
              (rw (add_sub j) at_port)) [
                | inl (q, a, queues) ↦
                    let new =
                      queued-Runs q (urb_work k (j + 1) v) h
                        (unused p.puw r.memory h q fresh apart a) runs (answered_fits v fits) in
                    (
                      handed_in k (j + 1) v info q h,
                      rw (calls ∙ queues) refl,
                      record { owns = new.owns; sound = new.sound },
                      λ n. queued_in n (j + 1) q info (unused p.puw r.memory h q fresh apart a),
                      refl,
                    )
                | inr (kept, waits, starved) ↦ (h, rw (calls ∙ waits) refl, runs, nothing, refl)
              ]
      ]
    where
      nothing : Accounts (urb_event r p u) h h
      nothing n = ground arith

      answered_handle : (answered k v).handle ≡ v.handle
      answered_handle = elim (Bool-cases (is_set_address k v)) [
        | inl asks ↦ rw asks refl
        | inr other ↦ rw other refl
      ]

      for_urb-urb_work :
          (n index : ℕ) → for_urb n (some (urb_work k index v)) ≡ (if u.handle == n then 1 else 0)
      for_urb-urb_work n index = unfold is_urb in rw (answered_handle ∙ same) refl

      queued_in :
          (n index q : ℕ) (info : PortInfo)
          → h.store q ≡ none
          → Balanced n
              (comes_in n (urb_event r p u) h (handed_in k index v info q h))
              h
              (handed_in k index v info q h)
      queued_in n index q info unused_at = ground (
        arith,
        queued-Balanced n q (urb_work k index v) h runs.owns unused_at,
        for_urb-urb_work n index,
        length-append h.inbox (q ∷ []),
      )

      idles :
          port_from_address u.devadr h ≡ done 0 h
          → queue_urb k p.puw r.memory u.devadr v h ≡ finished h
      idles nowhere = unfold queue_urb in rw (nowhere, queue_urb) refl

      add_sub : (j : ℕ) → j + 1 - 1 ≡ j
      add_sub j = omega arith

      answered_fits : (v : Urb) → PacketsFit v → PacketsFit (answered k v)
      answered_fits v fits = elim (Bool-cases (is_set_address k v)) [
        | inl asks ↦ rw asks fits
        | inr other ↦ rw other fits
      ]

  pub urb_event-GoesOn :
      (r : UrbRound) (p : Pass) (u : Urb) (h : LocalHcd)
      → PortsWell count_of h
      → Runs k h
      → Meets k (urb_event r p u) h
      → GoesOn (urb_event r p u) h
  urb_event-GoesOn r p u h ports runs (fresh, apart, usable) =
      let (fetched, loads, how) = load-cases k r u usable p.res in
      elim how [
        | inl fails ↦ (h, rw (drops fetched loads fails) refl, runs, λ n. ground arith, refl)
        | inr (fine, fits, same) ↦
            queue_urb-GoesOn r p u fetched.output h ports runs fresh apart usable.address fits same
              (urb_attempt-queue_urb k u r p (with_arrays r u) fetched h (makes k r u usable) loads
                fine)
      ]
    where
      drops :
          (fetched : Returned Urb)
          → load r p.res (with_arrays r u) ≡ some fetched
          → fetched.value ≡ minus_one
          → urb_attempt k r p u h ≡ finished h
      drops fetched loads fails =
          unfold urb_attempt in
          rw (makes k r u usable, urb_attempt) (rw (loads, urb_attempt) (rw fails refl))
