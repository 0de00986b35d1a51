-- ===== src/Example/Main/Attends.antt =====
-- The loop of the example gives back every URB that the kernel sends to its device.
use usb_vhci_libusb.Prelude.{
  subst, sym, ==_refl, ℕ, ◌≡◌, refl, ap, ◌∙◌, Bool, true, false, ◌==◌, ◌&&◌, not, arith,
  if◌then◌else◌, Option, none, some, List, [], ◌∷◌, ◌++◌, map, Bool-cases, inl, inr, ℤ, All, ◌==ℤ◌,
}
use mathlib.Core.Option.{some-injective}
use usb_vhci_libusb.Errno.{Errno}
use usb_vhci_libusb.Kernel.{Header, IsHeader}
use usb_vhci_libusb.PortStat.{
  PortStat, get_connection_changed, get_reset_changed, get_reset, get_enable,
}
use usb_vhci_libusb.Urb.{Urb}
use usb_vhci_libusb.Device.{minus_one}
use usb_vhci_libusb.Device.Fetch.{
  Payload, handle_payload, urb_payload, port_stat_payload, fetch_work, nonzero,
}
use usb_vhci_libusb.Device.Fetch.Laws.{fetch_work-IsTagged, Tagged}
use usb_vhci_libusb.Device.Port.{PortCall}
use usb_vhci_libusb.Example.{State, make_calls, port_calls, port_event, urb_event}
use usb_vhci_libusb.Example.Answering.{address_of}
use usb_vhci_libusb.Example.Main.Serving.{IsServed, urb_event-Serves}
use usb_vhci_libusb.Example.Main.{
  Turn, Sent, port_sent, giveback_sent, Run, running, handle_work, turn, main_loop,
}

-- The handles that are given back.
abbrev pub handles : List Sent → List ℕ
handles [] = []
handles (port_sent c ∷ rest) = handles rest
handles (giveback_sent gb ∷ rest) = gb.handle ∷ handles rest

-- The URBs that the device owes an answer when it has an address: those that are sent to it.
abbrev pub owed : Payload → ℕ → List ℕ
owed (urb_payload u) adr = if u.devadr == adr then u.handle ∷ [] else []
owed (port_stat_payload index ps) adr = []
owed (handle_payload handle) adr = []

-- The device's address after a work: a new connection takes it away (0xff), a reset that leaves the
-- port enabled sets it to 0, and SET_ADDRESS for the device sets it.
abbrev pub next_address : Header → Payload → ℕ → ℕ
next_address k (port_stat_payload index ps) adr =
    if get_reset_changed ps && (not (get_reset ps) && get_enable ps)
    then 0
    else if get_connection_changed ps
    then 0xff
    else adr
next_address k (urb_payload u) adr = if u.devadr == adr then address_of k u adr else adr
next_address k (handle_payload handle) adr = adr

-- What a turn needs once a work is fetched: port events name port 1 and the kernel accepts the
-- port calls.
abbrev pub IsReady : ℤ → Turn → Payload → Type 0
IsReady fd t (port_stat_payload index ps) = (index ≡ 1) × ((c : PortCall) → t.accepts fd c ≡ true)
IsReady fd t (urb_payload u) = IsServed t.arrays u
IsReady fd t (handle_payload handle) = Unit {0}

make_calls-all :
    (accepts : PortCall → Bool)
    → ((c : PortCall) → accepts c ≡ true)
    → (calls : List PortCall) → make_calls accepts calls ≡ (true, calls)
unfolding make_calls
make_calls-all accepts all [] = refl
make_calls-all accepts all (c ∷ rest) = rw (make_calls-all accepts all rest, all c) refl

handles-port_sent : (calls : List PortCall) → handles (map port_sent calls) ≡ []
handles-port_sent [] = refl
handles-port_sent (c ∷ calls) = handles-port_sent calls

-- The run goes on, and has sent back what was owed.
abbrev pub GoesOn : Run → List ℕ → ℕ → Type 0
GoesOn r owing adr =
    (out : List Sent) × (later : State) × (r ≡ running out later)
    × (handles out ≡ owing)
    × (later.adr ≡ adr)

module _ (e : Errno) (k : Header) (fd : ℤ) where
  port_work :
      (t : Turn) (res : ℤ) (index : ℕ) (ps : PortStat) (type : ℕ) (s : State)
      → type ≡ k.work_type_port_stat
      → IsReady fd t (port_stat_payload index ps)
      → GoesOn
          (handle_work e k fd t res
            (record { payload = port_stat_payload index ps; type = type })
            s)
          []
          (next_address k (port_stat_payload index ps) s.adr)
  unfolding handle_work port_event get_connection_changed get_reset_changed get_reset get_enable
  port_work t res index ps type s tag ready =
      rw (tag, ==_refl k.work_type_port_stat)
        (rw (ready.0) (
          rw (make_calls-all (t.accepts fd) ready.1 (port_calls k s.stat ps))
            (_, _, refl, handles-port_sent (port_calls k s.stat ps), refl)))

  urb_work :
      (t : Turn) (res : ℤ) (u : Urb) (type : ℕ) (s : State)
      → IsHeader k
      → type ≡ k.work_type_process_urb
      → IsReady fd t (urb_payload u)
      → GoesOn
          (handle_work e k fd t res (record { payload = urb_payload u; type = type }) s)
          (owed (urb_payload u) s.adr)
          (next_address k (urb_payload u) s.adr)
  unfolding handle_work
  urb_work t res u type s header tag ready =
      rw (unlike, alike)
        (elim (Bool-cases (u.devadr == s.adr)) [
          | inl mine ↦
              let (gb, gives, same) =
                urb_event-Serves e k t.arrays (nonzero res) u s ready (ground (arith, mine)) in
              rw mine (rw (gives, handle_work) (_, _, refl, ap (λ (h : ℕ). h ∷ []) same, refl))
          | inr other ↦ rw other (unfold urb_event in rw other ([], s, refl, refl, refl))
        ])
    where
      unlike : (type == k.work_type_port_stat) ≡ false
      unlike = ground (arith, header.work_types, tag)

      alike : (type == k.work_type_process_urb) ≡ true
      alike = ground (arith, tag)

  cancel_work :
      (t : Turn) (res : ℤ) (handle type : ℕ) (s : State)
      → IsHeader k
      → type ≡ k.work_type_cancel_urb
      → GoesOn
          (handle_work e k fd t res (record { payload = handle_payload handle; type = type }) s)
          []
          s.adr
  unfolding handle_work
  cancel_work t res handle type s header tag =
      ([], s, ground (arith, header.work_types, tag), refl, refl)

  work-GoesOn :
      (t : Turn) (res : ℤ) (payload : Payload) (type : ℕ) (s : State)
      → IsHeader k
      → Tagged k (record { payload = payload; type = type })
      → IsReady fd t payload
      → GoesOn
          (handle_work e k fd t res (record { payload = payload; type = type }) s)
          (owed payload s.adr)
          (next_address k payload s.adr)
  work-GoesOn t res (port_stat_payload index ps) type s header tag ready =
      port_work t res index ps type s tag ready
  work-GoesOn t res (urb_payload u) type s header tag ready =
      urb_work t res u type s header tag ready
  work-GoesOn t res (handle_payload handle) type s header tag ready =
      cancel_work t res handle type s header tag

  -- What a turn fetches: nothing if FETCHWORK fails.
  unfoldable pub fetched_by : Turn → Option Payload
  fetched_by t =
      let r = fetch_work e k (t.ioctl fd) (t.before) in
      if r.value ==ℤ minus_one then none else some (r.output.payload)

  abbrev pub TurnReady : Turn → Type 0
  TurnReady t = (p : Payload) → fetched_by t ≡ some p → IsReady fd t p

  pub TurnReady-some :
      (t : Turn) (p : Payload) → fetched_by t ≡ some p → IsReady fd t p → TurnReady t
  TurnReady-some t p is_it ready q also =
      subst (IsReady fd t) (some-injective p q (sym is_it ∙ also)) ready

  abbrev pub owed_in : Option Payload → ℕ → List ℕ
  owed_in none adr = []
  owed_in (some p) adr = owed p adr

  abbrev pub address_in : Option Payload → ℕ → ℕ
  address_in none adr = adr
  address_in (some p) adr = next_address k p adr

  turn-GoesOn :
      (t : Turn) (s : State)
      → IsHeader k
      → TurnReady t
      → GoesOn (turn e k fd t s) (owed_in (fetched_by t) s.adr) (address_in (fetched_by t) s.adr)
  unfolding turn fetched_by
  turn-GoesOn t s header ready =
      elim (Bool-cases ((fetch_work e k (t.ioctl fd) (t.before)).value ==ℤ minus_one)) [
        | inl fails ↦ rw fails ([], s, refl, refl, refl)
        | inr fine ↦ rw fine (elim (fetch_work-IsTagged e k (t.ioctl fd) (t.before)) [
          | inl fails ↦ absurd (ground (arith, fails, fine))
          | inr tag ↦
              let r = fetch_work e k (t.ioctl fd) (t.before) in
              work-GoesOn t r.value r.output.payload r.output.type s header tag
                (ready r.output.payload (rw fine refl))
        ])
      ]

  -- What the turns owe together, and the address in the end.
  abbrev pub all_owed : List Turn → ℕ → List ℕ
  all_owed [] adr = []
  all_owed (t ∷ turns) adr =
      owed_in (fetched_by t) adr ++ all_owed turns (address_in (fetched_by t) adr)

  abbrev pub last_address : List Turn → ℕ → ℕ
  last_address [] adr = adr
  last_address (t ∷ turns) adr = last_address turns (address_in (fetched_by t) adr)

  handles-append : (xs ys : List Sent) → handles (xs ++ ys) ≡ handles xs ++ handles ys
  handles-append [] ys = refl
  handles-append (port_sent c ∷ xs) ys = handles-append xs ys
  handles-append (giveback_sent gb ∷ xs) ys =
      ap (λ (l : List ℕ). gb.handle ∷ l) (handles-append xs ys)

  -- However many works the kernel sends, the loop goes on and gives back, in the order in which
  -- they came, exactly the URBs that were sent to the device's address when they came, each once;
  -- and the device's address is the one that the port events and the SET_ADDRESS requests give. A
  -- failed FETCHWORK makes no difference. The work types must have distinct numbers, port events
  -- must name port 1 and the port calls succeed, and a URB must have memory, room for the bytes it
  -- asks for, the packets it counts, and its data when they are fetched.
  pub main_loop-attends :
      (turns : List Turn) (s : State)
      → IsHeader k
      → All TurnReady turns
      → GoesOn (main_loop e k fd turns s) (all_owed turns s.adr) (last_address turns s.adr)
  unfolding main_loop
  main_loop-attends [] s header ready = ([], s, refl, refl, refl)
  main_loop-attends (t ∷ turns) s header ready =
      let (out, later, runs, gives, moves) = turn-GoesOn t s header ready.0 in
      let (more, last, runs', gives', moves') = main_loop-attends turns later header ready.1 in
      (
        out ++ more,
        last,
        rw (runs, main_loop) (rw runs' refl),
        handles-append out more ∙ rw (gives, gives', moves) refl,
        moves' ∙ rw moves refl,
      )
