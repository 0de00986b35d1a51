-- ===== src/LocalHcd/Ports.antt =====
-- The calls that a local controller meets between its construction and its destruction: those of
-- the clients, and the passes of the background thread, in any order. The ports' records are read
-- and written by the passes.
pub mod Passes
pub mod Methods
pub mod Calls
pub mod Runs
pub mod Life
pub mod Usable
pub mod Going
pub mod Total
use usb_vhci_libusb.Prelude.{
  ℕ, ◌≡◌, ◌≤◌, ◌⊎◌, Bool, Option, none, some, List, [], ◌∷◌, length, All, ℤ,
}
use usb_vhci_libusb.Errno.{Errno}
use usb_vhci_libusb.Kernel.{Header}
use usb_vhci_libusb.PortStat.{PortStat}
use usb_vhci_libusb.Urb.{Urb}
use usb_vhci_libusb.Outcome.{Outcome, done, throws, fault}
use usb_vhci_libusb.Hcd.{
  Callback, next_work, finish_work, cancel_process_urb_work, add_work_enqueued_callback,
  remove_work_enqueued_callback,
}
use usb_vhci_libusb.LocalHcd.{PortInfo, no_address, LocalHcd, Memory, local}
use usb_vhci_libusb.LocalHcd.Background.{
  Attempt, finished, again, terminated, port_stat_attempt, UrbRound, Pass, urb_attempt,
}

-- A device address has seven bits.
abbrev pub IsAddress : PortInfo → Type 0
IsAddress p = (p.adr ≤ 0x7f) ⊎ (p.adr ≡ no_address)

-- There is a record for each of the `count` ports.
pub record PortsWell (count : ℕ) (h : LocalHcd) : Type 0 where
  pub ports : h.port_count ≡ count
  pub records : length h.derived.port_info ≡ count
  pub addresses : All IsAddress h.derived.port_info

-- One call of a client or one pass of the background thread, with what it meets. `port_event` is a
-- pass for a port that exists.
pub data Call : Type 0 where
  hand : Bool → Call
  finish : Memory → ℕ → Call
  cancel : Memory → ℕ → Call
  add_callback : Bool → Callback → Call
  remove_callback : Callback → Call
  port_event : ℕ → PortStat → Option ℕ → Memory → Call
  urb_event : UrbRound → Pass → Urb → Call

-- The state that a call leaves, `none` if the process is terminated.
abbrev pub left_by : {A : Type 0} → Outcome LocalHcd A → Option LocalHcd
left_by (done a t) = some t
left_by (throws e t) = some t
left_by fault = none

abbrev pub left_by_pass : {Kept : Type 0} → Attempt Kept → Option LocalHcd
left_by_pass (finished t) = some t
left_by_pass (again kept t) = some t
left_by_pass terminated = none

module _ (e : Errno) (k : Header) where
  abbrev pub leaves : Call → LocalHcd → Option LocalHcd
  leaves (hand fits) h = left_by (next_work fits h)
  leaves (finish m w) h = left_by (finish_work (local e k m) w h)
  leaves (cancel m handle) h = left_by (cancel_process_urb_work (local e k m) handle h)
  leaves (add_callback fits c) h = left_by (add_work_enqueued_callback fits c h)
  leaves (remove_callback c) h = some (remove_work_enqueued_callback c h)
  leaves (port_event index ps psw m) h = left_by_pass (port_stat_attempt k index ps psw m h)
  leaves (urb_event r p u) h = left_by_pass (urb_attempt k r p u h)

  abbrev pub run : List Call → LocalHcd → Option LocalHcd
  run [] h = some h
  run (c ∷ calls) h = elim (leaves c h) [ none ↦ none | some t ↦ run calls t ]

-- What holds of the state that is left, if one is.
abbrev pub AllLeft : (LocalHcd → Type 0) → Option LocalHcd → Type 0
AllLeft P none = Unit {0}
AllLeft P (some t) = P t

pub AllLeft-map :
    {P Q : LocalHcd → Type 0}
    → ((t : LocalHcd) → P t → Q t)
    → (r : Option LocalHcd) → AllLeft P r
    → AllLeft Q r
AllLeft-map f none p = tt
AllLeft-map f (some t) p = f t p
