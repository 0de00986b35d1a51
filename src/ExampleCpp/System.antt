-- ===== src/ExampleCpp/System.antt =====
-- The client thread and the background thread of the controller, interleaved in any order. The
-- mutex `has_work_mutex` makes the head of the client's loop and the callback one step each.
use usb_vhci_libusb.Prelude.{ℕ, ◌≡◌, Bool, true, false, Option, none, [], ◌∷◌}
use usb_vhci_libusb.Errno.{Errno}
use usb_vhci_libusb.Kernel.{Header}
use usb_vhci_libusb.Device.{Reply}
use usb_vhci_libusb.Device.Port.{IocPortStat}
use usb_vhci_libusb.Work.{Work}
use usb_vhci_libusb.Outcome.{done, ◌>>◌}
use usb_vhci_libusb.Hcd.{next_work, enqueue_work, on_work_enqueued, cancel_process_urb_work}
use usb_vhci_libusb.Hcd.Owned.{Owns, pending}
use usb_vhci_libusb.Hcd.Laws.{AllSound}
use usb_vhci_libusb.Hcd.Next.{is_nonempty}
use usb_vhci_libusb.Hcd.Enqueue.{allocated}
use usb_vhci_libusb.LocalHcd.{Local, LocalHcd, Memory, IsFresh, local}
use usb_vhci_libusb.LocalHcd.Laws.{Sound}
use usb_vhci_libusb.ExampleCpp.Callbacks.{call_all, since, tells}
use usb_vhci_libusb.ExampleCpp.{
  handle, Shared, Pc, top, asleep, ready, holds, is_asleep, look, after,
}

-- The variables of `main`, the mutex's variables, the controller and the client's place.
pub record System : Type 0 where
  pub hcd : LocalHcd
  pub shared : Shared
  pub cont : Bool
  pub pc : Pc

abbrev pub look_step : System → System
look_step s = let r = look s.cont s.shared in record s { pc = r.0; shared = r.1 }

module _ (e : Errno) (k : Header) where
  -- One step. The client is woken by a signal or spuriously. The background thread queues a new
  -- work (a port event, a URB or the report of a canceled URB), maybe changing the ports' records,
  -- and calls the callbacks that are registered; or it withdraws a canceled URB that waits.
  pub data Step (s : System) : System → Type 0 where
    looks : s.pc ≡ top → Step s (look_step s)
    wakes : s.pc ≡ asleep → Step s (record s { pc = ready })
    takes :
        (r : Option ℕ × Bool) (t : LocalHcd)
        → s.pc ≡ ready
        → next_work true s.hcd ≡ done r t
        → Step s (record s { hcd = t; cont = r.1; pc = after r.0 })
    completes :
        (w : ℕ) (m : Memory) (reply : IocPortStat → Reply (Unit {0})) (t : LocalHcd)
        → s.pc ≡ holds w
        → IsFresh m
        → m.malloc ≡ true
        → handle e k reply (local e k m) w s.hcd ≡ done true t
        → Step s (record s { hcd = t; pc = top })
    queues :
        (q : ℕ) (o : Work) (t : LocalHcd) (d : Local)
        → s.hcd.store q ≡ none
        → Sound k o
        → (enqueue_work true q >> on_work_enqueued) (allocated q o s.hcd) ≡ done tt t
        → Step s (record s {
          hcd = record t { derived = d };
          shared = call_all (is_asleep s.pc) (since s.hcd.notified t.notified) s.shared;
        })
    withdraws :
        (m : Memory) (number : ℕ) (t : LocalHcd)
        → IsFresh m
        → m.malloc ≡ true
        → cancel_process_urb_work (local e k m) number s.hcd ≡ done false t
        → Step s (record s { hcd = t })

  -- The start of the loop: the callback is registered, and the thread may already have queued
  -- works.
  pub data Reach (start : System) : System → Type 0 where
    here : Reach start start
    next : {s t : System} → Reach start s → Step s t → Reach start t

-- Whether a work waits that is not canceled.
abbrev pub busy : LocalHcd → Bool
busy h = is_nonempty (pending h.store h.inbox)

-- What holds at each place of the client.
abbrev pub At : Pc → System → Type 0
At top s = (s.hcd.processing ≡ []) × (s.cont ≡ false → busy s.hcd ≡ true → s.shared.has_work ≡ true)
At asleep s =
    (s.hcd.processing ≡ [])
    × (s.shared.signalled ≡ false → (s.shared.waiting_for_work ≡ true) × (busy s.hcd ≡ false))
At ready s = s.hcd.processing ≡ []
At (holds w) s =
    (s.hcd.processing ≡ w ∷ []) × (s.cont ≡ false → busy s.hcd ≡ true → s.shared.has_work ≡ true)

pub record Inv (k : Header) (s : System) : Type 0 where
  pub owns : Owns s.hcd
  pub sound : AllSound (Sound k) s.hcd
  pub registered : tells s.hcd.work_enqueued_callbacks ≡ true
  pub here : At s.pc s
