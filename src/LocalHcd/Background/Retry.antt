-- ===== src/LocalHcd/Background/Retry.antt =====
-- Port events survive a shortage of memory.
use usb_vhci_libusb.Prelude.{
  ℕ, ◌-◌, ◌≡◌, ◌≢◌, ◌++◌, ◌⊎◌, inl, inr, true, false, arith, Bool-cases, Option-cases, Option, none,
  some, List, [], ◌∷◌, get_elem?, is_some,
}
use usb_vhci_libusb.Kernel.{Header}
use usb_vhci_libusb.PortStat.{PortStat}
use usb_vhci_libusb.Work.{Work, Store}
use usb_vhci_libusb.Hcd.{enqueue_work}
use usb_vhci_libusb.LocalHcd.{PortInfo, LocalHcd, Memory}
use usb_vhci_libusb.LocalHcd.Background.{finished, again, or_new, port_stat_attempt, Round}
use usb_vhci_libusb.LocalHcd.Background.PortEvents.{recorded, attempt_queues, new_event_work}

-- Every allocation of a pass on this object succeeds.
abbrev pub Suffices : Memory → LocalHcd → Type 0
Suffices m h = (m.fits ≡ true) × (is_some (m.new_address h.store) ≡ true)

-- Some pass has memory: the first, or that of a later round, on what the other threads leave.
abbrev pub Relieved : Memory → List Round → LocalHcd → Type 0
Relieved m [] h = Suffices m h
Relieved m (r ∷ rounds) h = Suffices m h ⊎ Relieved r.memory rounds (r.others h)

-- The thread is not shut down, and the other threads leave the ports' records, which only this
-- thread writes.
abbrev pub IsQuiet : Round → Type 0
IsQuiet r = (r.shutdown ≡ false) × ((h : LocalHcd) → (r.others h).derived ≡ h.derived)

-- A state that one of the passes meets, if none before it finds memory.
abbrev pub IsMet : List Round → LocalHcd → LocalHcd → Type 0
IsMet [] h u = u ≡ h
IsMet (r ∷ rounds) h u = (u ≡ h) ⊎ IsMet rounds (r.others h) u

-- From `u` to `t` the work is queued, and the port gets the record.
pub record Queues (o : Work) (index : ℕ) (info : PortInfo) (u t : LocalHcd) : Type 0 where
  pub address : ℕ
  pub last : t.inbox ≡ u.inbox ++ address ∷ []
  pub object : t.store address ≡ some o
  pub called : t.notified ≡ u.notified ++ u.work_enqueued_callbacks
  pub same_processing : t.processing ≡ u.processing
  pub at_port : get_elem? t.derived.port_info (index - 1) ≡ some info

pub or_new-some :
    (psw : Option ℕ) (m : Memory) (st : Store)
    → is_some (m.new_address st) ≡ true
    → or_new psw (m.new_address st) ≢ none
or_new-some none m st live e = ground arith
or_new-some (some q) m st live e = ground arith

module _ (k : Header) (index : ℕ) (nps : PortStat) (named : index ≢ 0) where
  attempt_fails :
      (psw : Option ℕ) (m : Memory) (h : LocalHcd) (info : PortInfo) (q : ℕ)
      → get_elem? h.derived.port_info (index - 1) ≡ some info
      → or_new psw (m.new_address h.store) ≡ some q
      → m.fits ≡ false
      → port_stat_attempt k index nps psw m h ≡ again (some q) h
  unfolding port_stat_attempt enqueue_work
  attempt_fails psw m h info q at_port a f =
      rw (at_port, port_stat_attempt)
        (rw (a, port_stat_attempt)
          (rw (new_event_work k index nps info named, port_stat_attempt) (rw f)))

  attempt_starves :
      (psw : Option ℕ) (m : Memory) (h : LocalHcd) (info : PortInfo)
      → get_elem? h.derived.port_info (index - 1) ≡ some info
      → or_new psw (m.new_address h.store) ≡ none
      → port_stat_attempt k index nps psw m h ≡ again none h
  unfolding port_stat_attempt
  attempt_starves psw m h info at_port a =
      rw (at_port, port_stat_attempt) (rw (a, port_stat_attempt))

  -- A pass either queues the event, or is to be made again on an unchanged object for want of
  -- memory.
  pub attempt_cases :
      (psw : Option ℕ) (m : Memory) (h : LocalHcd) (info : PortInfo)
      → get_elem? h.derived.port_info (index - 1) ≡ some info
      → ((q : ℕ) × (or_new psw (m.new_address h.store) ≡ some q)
          × (port_stat_attempt k index nps psw m h ≡ finished (recorded k index nps info q h)))
        ⊎ ((kept : Option ℕ) × (port_stat_attempt k index nps psw m h ≡ again kept h)
            × ¬ Suffices m h)
  attempt_cases psw m h info at_port = elim (Option-cases (or_new psw (m.new_address h.store))) [
    | inl starved ↦ inr (
      none,
      attempt_starves psw m h info at_port starved,
      λ enough. or_new-some psw m h.store enough.1 starved,
    )
    | inr (q, a) ↦ elim (Bool-cases m.fits) [
      | inl f ↦ inl (q, a, attempt_queues k index nps psw m h info q named at_port a f)
      | inr f ↦
          inr (some q, attempt_fails psw m h info q at_port a f, λ enough. ground (arith, enough.0))
    ]
  ]
