-- ===== src/LocalHcd/Background/Patience.antt =====
-- URBs survive a shortage of memory.
use usb_vhci_libusb.Prelude.{
  ℕ, ◌-◌, ◌≡◌, ◌≢◌, ◌⊎◌, inl, inr, refl, true, false, arith, Bool-cases, Option-cases, Option, none,
  some, List, [], ◌∷◌, get_elem?, All, pos,
}
use usb_vhci_libusb.Kernel.{Header}
use usb_vhci_libusb.Urb.{Urb}
use usb_vhci_libusb.Urb.Object.{from_struct_own}
use usb_vhci_libusb.Outcome.{done, ok}
use usb_vhci_libusb.Device.{Returned}
use usb_vhci_libusb.Hcd.{enqueue_work}
use usb_vhci_libusb.LocalHcd.{PortInfo, LocalHcd, Memory, port_from_address}
use usb_vhci_libusb.LocalHcd.Background.{
  finished, again, or_new, UrbRound, Pass, with_arrays, load, queue_urb, urb_attempt,
}
use usb_vhci_libusb.LocalHcd.Background.Retry.{Suffices, or_new-some}
use usb_vhci_libusb.LocalHcd.Background.UrbEvents.{
  address_after, handed_in, queue_urb_runs, new_urb_work, not_zero, apply_address_lem,
}
use usb_vhci_libusb.LocalHcd.Background.Rounds.{acquires, UrbRetry}

-- The thread is not shut down, gets its arrays, and makes a URB of what the kernel described; the
-- other threads leave the ports.
pub record IsPatient (k : Header) (u : Urb) (s : UrbRetry) : Type 0 where
  pub runs_on : s.shutdown ≡ false
  pub acquired : acquires s.waits u ≡ true
  pub made : Urb
  pub makes : from_struct_own k s.round.urb_memory (with_arrays s.round u) true ≡ ok made
  pub leaves : (h : LocalHcd) → (s.others h).derived ≡ h.derived
  pub counts : (h : LocalHcd) → (s.others h).port_count ≡ h.port_count

-- Some pass has memory for the work: the first, or that of a later round, on what the other threads
-- leave.
abbrev pub Eventually : Memory → List UrbRetry → LocalHcd → Type 0
Eventually m [] h = Suffices m h
Eventually m (s ∷ retries) h = Suffices m h ⊎ Eventually s.round.memory retries (s.others h)

-- The URB and the state that one of the passes meets, if none before it finds memory. Only the first
-- one fetches the data.
abbrev pub IsMetWith :
    (k : Header) (u : Urb) (retries : List UrbRetry)
    → All (IsPatient k u) retries
    → Urb
    → LocalHcd
    → Urb
    → LocalHcd
    → Type 0
IsMetWith k u [] patient v h y x = (y ≡ v) × (x ≡ h)
IsMetWith k u (s ∷ retries) patient v h y x =
    ((y ≡ v) × (x ≡ h)) ⊎ IsMetWith k u retries patient.1 patient.0.made (s.others h) y x

module _ (k : Header) (u : Urb) where
  pub urb_attempt-queue_urb :
      (r : UrbRound) (p : Pass) (v : Urb) (fetched : Returned Urb) (h : LocalHcd)
      → from_struct_own k r.urb_memory (with_arrays r u) true ≡ ok v
      → load r p.res v ≡ some fetched
      → fetched.value ≡ pos 0
      → urb_attempt k r p u h ≡ queue_urb k p.puw r.memory u.devadr fetched.output h
  unfolding urb_attempt
  urb_attempt-queue_urb r p v fetched h built filled fine =
      rw (built, urb_attempt) (rw (filled, urb_attempt) (rw fine refl))

module _ (k : Header) (u : Urb) (index : ℕ) (info : PortInfo) (named : index ≢ 0) where
  -- The port's record after the URB.
  abbrev pub readdressed : Urb → PortInfo
  readdressed y = record info { adr = address_after k y info.adr }

  pub queue_urb-cases :
      (puw : Option ℕ) (m : Memory) (v : Urb) (h : LocalHcd)
      → port_from_address u.devadr h ≡ done index h
      → get_elem? h.derived.port_info (index - 1) ≡ some info
      → ((q : ℕ) × (or_new puw (m.new_address h.store) ≡ some q)
          × (queue_urb k puw m u.devadr v h ≡ finished (handed_in k index v info q h)))
        ⊎ ((kept : Option ℕ) × (queue_urb k puw m u.devadr v h
              ≡ again (record { puw = kept; res = pos 0 }) h)
            × ¬ Suffices m h)
  unfolding queue_urb enqueue_work
  queue_urb-cases puw m v h at_address at_port =
      elim (Option-cases (or_new puw (m.new_address h.store))) [
        | inl starved ↦ inr (
          none,
          rw (at_address, queue_urb) (rw (not_zero index named) (rw (starved, queue_urb) refl)),
          λ enough. or_new-some puw m h.store enough.1 starved,
        )
        | inr (q, a) ↦ elim (Bool-cases m.fits) [
          | inl f ↦
              inl (
                q,
                a,
                queue_urb_runs k puw m u.devadr v h index q info at_address named at_port a f,
              )
          | inr f ↦ inr (
            some q,
            rw (at_address, queue_urb)
                (rw (not_zero index named) (
                  rw (a, queue_urb)
                    (rw (at_port, queue_urb)
                      (rw (apply_address_lem k v info.adr, queue_urb)
                        (rw (new_urb_work k index v named, queue_urb) (rw f refl)))))),
            λ enough. ground (arith, enough.0),
          )
        ]
      ]
