-- ===== src/Hcd/Fifo.antt =====
-- What the queue of src/hcd.cpp promises to its threads: a first-in first-out queue of the works
-- that wait, and the works that the client has in hand.
pub mod Simulates
pub mod Refines
use usb_vhci_libusb.Prelude.{
  ℕ, ◌+◌, ◌<◌, ◌≡◌, Bool, true, false, Option, none, some, List, [], ◌∷◌, ◌++◌, if◌then◌else◌,
}
use usb_vhci_libusb.Work.{Work}
use usb_vhci_libusb.Hcd.{Hcd, Virtual, remove}
use usb_vhci_libusb.Hcd.Owned.{count, pending}
use usb_vhci_libusb.Hcd.Next.{first, others, singleton}
use usb_vhci_libusb.Hcd.Session.{
  Step, Reach, queue, queue_fails, add_callback_fails, hand, finish, cancel_urb, cancel_throws,
  add_callback, remove_callback, here, next,
}

pub record Fifo : Type 0 where
  pub waiting : List ℕ
  pub in_hand : List ℕ

-- What a call is, for its caller.
pub data Event : Type 0 where
  submitted : List ℕ → Event
  handed : Option ℕ → Event
  completed : ℕ → Event
  canceled : Bool → Event
  cancel_failed : Event
  queue_failed : Event
  callbacks_changed : Event

-- How often a work is in the queue.
abbrev pub occurs : ℕ → Fifo → ℕ
occurs p a = count p a.waiting + count p a.in_hand

-- The works are not in the queue yet, and none of them comes twice.
abbrev pub New : List ℕ → Fifo → Type 0
New ws a = (p : ℕ) → 0 < count p ws → (count p ws ≡ 1) × (occurs p a ≡ 0)

abbrev pub append : List ℕ → Fifo → Fifo
append ws a = record a { waiting = a.waiting ++ ws }

-- `next_work` hands out the work that waits longest; a cancelation withdraws a work that waits, or
-- reports one in hand by new works.
pub data Behaves (a : Fifo) : Event → Fifo → Type 0 where
  submits : (ws : List ℕ) → New ws a → Behaves a (submitted ws) (append ws a)
  hands :
      Behaves a
        (handed (first a.waiting))
        (record { waiting = others a.waiting; in_hand = a.in_hand ++ singleton (first a.waiting) })
  completes :
      (w : ℕ)
      → 0 < count w a.in_hand
      → Behaves a (completed w) (record a { in_hand = remove w a.in_hand })
  withdraws : (w : ℕ) → Behaves a (canceled false) (record a { waiting = remove w a.waiting })
  finds_none : Behaves a (canceled false) a
  reports :
      (w : ℕ) (ws : List ℕ)
      → 0 < count w a.in_hand
      → New ws a
      → Behaves a (canceled true) (append ws a)
  fails :
      (w : ℕ) (ws : List ℕ)
      → 0 < count w a.in_hand
      → New ws a
      → Behaves a cancel_failed (append ws a)
  refuses : Behaves a queue_failed a
  changes_callbacks : Behaves a callbacks_changed a

pub data Runs (a : Fifo) : List Event → Fifo → Type 0 where
  starts : Runs a [] a
  continues :
      {b c : Fifo} {events : List Event} {event : Event}
      → Runs a events b
      → Behaves b event c
      → Runs a (event ∷ events) c

-- The queue that a controller's state stands for.
abbrev pub view : {D : Type 0} → Hcd D → Fifo
view h = record { waiting = pending h.store h.inbox; in_hand = h.processing }

abbrev pub accepted : ℕ → Work → List ℕ
accepted q o = if o.canceled then [] else q ∷ []

-- What the callers see of a run, the last call first.
module _ {D : Type 0} {Sound : Work → Type 0} {Methods : Virtual D → Type 0} where
  abbrev pub event : {h t : Hcd D} → Step Sound Methods h t → Event
  event (queue q o fresh good runs) = submitted (accepted q o)
  event (queue_fails q o x fresh runs) = queue_failed
  event (hand fits r runs) = handed r.0
  event (finish v w meets inside runs) = completed w
  event (cancel_urb v handle in_progress meets runs) = canceled in_progress
  event (cancel_throws v handle e meets runs) = cancel_failed
  event (add_callback fits c runs) = callbacks_changed
  event (add_callback_fails c x runs) = callbacks_changed
  event (remove_callback h c) = callbacks_changed

  abbrev pub events : {h t : Hcd D} → Reach Sound Methods h t → List Event
  events here = []
  events (next r st) = event st ∷ events r
