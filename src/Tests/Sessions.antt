-- ===== src/Tests/Sessions.antt =====
-- A session of a controller, and a client that takes all its work.
use usb_vhci_libusb.Prelude.{
  ℕ, ◌≡◌, refl, sym, subst, Bool, true, false, arith, if◌then◌else◌, Option, none, some, [], ◌∷◌,
  pos, is_some,
}
use mathlib.Core.Option.{some-injective}
use usb_vhci_libusb.Errno.{linux}
use usb_vhci_libusb.Kernel.{sample}
use usb_vhci_libusb.Urb.{zeroed}
use usb_vhci_libusb.Work.{Work, put, process_urb_work}
use usb_vhci_libusb.Outcome.{done}
use usb_vhci_libusb.Hcd.{
  Virtual, construct, next_work, next_work_loop, finish_work, destroy, enqueue_work,
  on_work_enqueued,
}
use usb_vhci_libusb.Hcd.Owned.{Owns}
use usb_vhci_libusb.Hcd.Laws.{IsVirtual}
use usb_vhci_libusb.Hcd.Session.{Reach, IsWell, queue, hand, finish, here, next, session_safe}
use usb_vhci_libusb.Hcd.Fifo.{Runs, submitted, handed, completed}
use usb_vhci_libusb.Hcd.Fifo.Refines.{session_refines}
use usb_vhci_libusb.Hcd.Drain.{next_works, Drains, next_works-pending}
use usb_vhci_libusb.LocalHcd.{Local, LocalHcd, Memory, IsFresh, local, new_port, finishing_work}
use usb_vhci_libusb.LocalHcd.Laws.{Sound, local-IsVirtual}
use usb_vhci_libusb.Device.Giveback.{plain_giveback, giveback_request}

-- The methods of `local_hcd` with any memory that does not fail `malloc`.
abbrev Methods : Virtual Local → Type 0
Methods v = (m : Memory) × IsFresh m × (m.malloc ≡ true) × (v ≡ local linux sample m)

Methods-IsVirtual : (v : Virtual Local) → Methods v → IsVirtual (Sound sample) v
Methods-IsVirtual v (m, fresh, mem, e) =
    subst (IsVirtual (Sound sample)) (sym e) (local-IsVirtual linux sample m fresh mem)

abbrev enough : Memory
enough = record {
  new_address = λ store. if is_some (store 20) then none else some 20;
  fits = true;
  malloc = true;
}

enough-IsFresh : IsFresh enough
enough-IsFresh store q e = ground (arith, some-injective 20 q)

abbrev members : Local
members = record {
  fd = pos 3;
  id = pos 0;
  usb_bus_num = pos 4;
  bus_id = [];
  port_info = new_port ∷ [];
  given_back = [];
}

-- A bulk transfer.
abbrev bulk : Work
bulk = record {
  port = 1;
  canceled = false;
  kind = process_urb_work (record zeroed { handle = 71; type = 3 });
}

abbrev built : LocalHcd
built = record {
  port_count = 1;
  work_enqueued_callbacks = [];
  inbox = [];
  processing = [];
  store = λ p. none;
  notified = [];
  derived = members;
}

abbrev with_work : LocalHcd
with_work = record built { inbox = 20 ∷ []; store = put (λ p. none) 20 (some bulk) }

abbrev in_hand : LocalHcd
in_hand = record with_work { inbox = []; processing = 20 ∷ [] }

abbrev given : LocalHcd
given = record built {
  store = put (put (λ p. none) 20 (some bulk)) 20 none;
  derived = record members {
    given_back = plain_giveback linux sample (record zeroed { handle = 71; type = 3 }) ∷ [];
  };
}

builds : construct 1 members ≡ some built
unfolding construct
builds = refl

hands_work : next_work true with_work ≡ done (some 20, false) in_hand
unfolding next_work next_work_loop
hands_work = refl

gives_work : finish_work (local linux sample enough) 20 in_hand ≡ done tt given
unfolding finish_work finishing_work giveback_request
gives_work = refl

session : Reach (Sound sample) Methods built given
unfolding enqueue_work on_work_enqueued
session =
    next
      (next (next here (queue 20 bulk refl (omega arith) refl))
        (hand true (some 20, false) hands_work))
      (finish (local linux sample enough) 20 (enough, enough-IsFresh, refl, refl) (omega arith)
        gives_work)

session_safe_example :
    IsWell (Sound sample) Methods given
    × ((r : Option ℕ × Bool) × (u : LocalHcd) × (next_work true given ≡ done r u))
    × ((u : LocalHcd) × (destroy given ≡ done tt u) × ((p : ℕ) → u.store p ≡ none))
session_safe_example =
    session_safe (Sound sample) Methods 1 members built given Methods-IsVirtual builds session

session_refines_example :
    Runs
      (record { waiting = []; in_hand = [] })
      (completed 20 ∷ handed (some 20) ∷ submitted (20 ∷ []) ∷ [])
      (record { waiting = []; in_hand = [] })
unfolding session
session_refines_example =
    session_refines {Sound = Sound sample} {Methods = Methods} 1 members built given
      Methods-IsVirtual builds session

with_work-Owns : Owns with_work
with_work-Owns p = ground arith

next_works-pending_example :
    (t : LocalHcd) × (next_works 1 with_work ≡ done (20 ∷ []) t) × Drains with_work t (20 ∷ [])
next_works-pending_example = next_works-pending (20 ∷ []) with_work with_work-Owns refl
