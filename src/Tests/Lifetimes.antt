-- ===== src/Tests/Lifetimes.antt =====
-- The device file, the background thread, and the life of a local controller.
use usb_vhci_libusb.Prelude.{
  has, All, ℕ, ◌<◌, ◌≤◌, ◌≡◌, ◌≢◌, ◌==◌, refl, subst, inl, inr, Bool-cases, true, false, arith,
  if◌then◌else◌, none, some, [], ◌∷◌, pos, replicate, is_some, length,
}
use mathlib.Core.Option.{some-injective}
use usb_vhci_libusb.Outcome.{done}
use usb_vhci_libusb.Device.{Reply, answer, failed, Returned}
use usb_vhci_libusb.Device.Open.{IocRegister, closes, Kernel, Opened, usb_vhci_close, usb_vhci_open}
use usb_vhci_libusb.Device.Open.Laws.{IsOpened, usb_vhci_open-IsOpened}
use usb_vhci_libusb.Device.Open.Close.{Settles, as_returned, usb_vhci_close-returns}
use usb_vhci_libusb.Hcd.Thread.{
  Control, init_bg_thread, begin_join, no_thread, Threads, initial, at, checks, ended, Step,
  creates, begins_join, Reach, here, next, Waits,
}
use usb_vhci_libusb.Hcd.Thread.Joins.{one_thread}
use usb_vhci_libusb.Hcd.Thread.Waiting.{join_ends}
use usb_vhci_libusb.LocalHcd.{LocalHcd, Memory, IsFresh, new_port, port_from_address}
use usb_vhci_libusb.LocalHcd.Background.{port_stat_attempt, update_port}
use usb_vhci_libusb.LocalHcd.Ports.{IsAddress, hand, port_event, run}
use usb_vhci_libusb.LocalHcd.Ports.Runs.{run_bounds}
use usb_vhci_libusb.PortStat.{
  PortStat, no_stat, get_connection_changed, get_reset_changed, get_reset, get_enable,
}
use usb_vhci_libusb.PortStat.Triggers.{trigger_flags}
use usb_vhci_libusb.Errno.{linux}
use usb_vhci_libusb.Kernel.{sample}
use usb_vhci_libusb.Work.{put, port_stat_work, new_port_stat_work}
use usb_vhci_libusb.Hcd.{enqueue_work, on_work_enqueued, next_work, next_work_loop}
use usb_vhci_libusb.LocalHcd.Lifetime.{
  Supplies, Created, everything, construct_local, destroy_local,
}
use usb_vhci_libusb.LocalHcd.Lifetime.Ways.{IsNew, IsCreated}
use usb_vhci_libusb.LocalHcd.Lifetime.Creation.{construct_local-IsCreated}
use usb_vhci_libusb.LocalHcd.Ports.Life.{AllAllowed, life_frees}

abbrev pub eintr : ℕ
eintr = 4

-- `close` is interrupted once.
abbrev pub closing : ℕ → Reply (Unit {0})
closing i = if i == 0 then failed eintr else answer tt

pub closing-Settles : Settles eintr closing 1
closing-Settles = (λ i below. ground arith, λ e. ground (arith, e))

-- "vhci.0", in an array of eight bytes.
abbrev pub told : IocRegister
told = record {
  id = pos 0;
  usb_busnum = pos 4;
  bus_id = 118 ∷ 104 ∷ 99 ∷ 105 ∷ 46 ∷ 48 ∷ 0 ∷ 7 ∷ [];
}

abbrev pub machine : Kernel
machine = record {
  on_open = answer 3;
  on_register = λ fd ports. if ports == 1 then answer told else failed 22;
  on_close = closing;
  malloc = true;
}

usb_vhci_close-returns_example :
    usb_vhci_close eintr 2 3 closing ≡ some (as_returned (answer tt) (replicate 2 (closes 3)))
usb_vhci_close-returns_example =
    usb_vhci_close-returns eintr 2 3 1 closing closing-Settles (omega arith)

abbrev HasRoom : Reply IocRegister → Type 0
HasRoom (answer d) = 0 < length d.bus_id
HasRoom (failed code) = Unit {0}

pub has_room :
    (ports fd : ℕ) (d : IocRegister) → machine.on_register fd ports ≡ answer d → 0 < length d.bus_id
has_room ports fd d e = elim (Bool-cases (ports == 1)) [
  | inl one ↦ subst (λ (r : Reply IocRegister). HasRoom r) (rw one at e) (omega arith)
  | inr other ↦ subst (λ (r : Reply IocRegister). HasRoom r) (rw other at e) tt
]

-- Two ports are refused here, and the descriptor is closed.
usb_vhci_open-IsOpened_example :
    (r : Returned Opened) × (usb_vhci_open eintr 2 machine everything 2 ≡ some r)
    × IsOpened machine everything 2 1 r
usb_vhci_open-IsOpened_example =
    usb_vhci_open-IsOpened eintr 2 1 machine everything 2 closing-Settles (omega arith) (has_room 2)

abbrev supplies : Supplies
supplies = record { sys = machine; assigns = true; allocates = true; create = failed 11 }

-- No thread can be made.
construct_local-IsCreated_example :
    (r : Created) × (construct_local eintr 2 supplies 1 ≡ some r) × IsCreated supplies 1 1 r
construct_local-IsCreated_example =
    construct_local-IsCreated eintr 2 1 supplies 1 closing-Settles (omega arith) (has_room 1)

abbrev pub new_controller : LocalHcd
new_controller = record {
  port_count = 1;
  work_enqueued_callbacks = [];
  inbox = [];
  processing = [];
  store = λ p. none;
  notified = [];
  derived = record {
    fd = pos 3;
    id = pos 0;
    usb_bus_num = pos 4;
    bus_id = [];
    port_info = new_port ∷ [];
    given_back = [];
  };
}

abbrev pub running : Control
running = record { bg_thread = 9; thread_shutdown = false }

-- Without memory for the bus id.
abbrev pub poor : Supplies
poor = record {
  sys = record machine { malloc = false };
  assigns = true;
  allocates = true;
  create = answer 9;
}

pub new_controller-IsNew : IsNew poor 1 3 told new_controller running
new_controller-IsNew = record {
  fd = refl;
  id = refl;
  usb_bus_num = refl;
  bus_id = inr (refl, refl);
  port_count = refl;
  port_info = refl;
  none_given = refl;
  empty = (refl, refl);
  no_works = λ p. refl;
  runs = refl;
  flag = refl;
}

abbrev started : Threads
started = record initial { control = running; threads = at initial.threads 9 (some checks) }

starts_thread : Reach started
unfolding init_bg_thread
starts_thread = next here (creates 9 running refl (λ e. ground (arith, e)) refl refl)

one_thread_example :
    ((t u : ℕ) → is_some (started.threads t) ≡ true → is_some (started.threads u) ≡ true → t ≡ u)
    × ((t : ℕ) → is_some (started.threads t) ≡ true → t ≡ started.control.bg_thread)
    × (started.joining ≡ false
        → (started.control.bg_thread ≡ 0 → (t : ℕ) → started.threads t ≡ none)
          × (started.control.thread_shutdown ≡ false)
          × ((t : ℕ) → started.threads t ≢ some ended))
one_thread_example = one_thread started starts_thread

abbrev waiting : Threads
waiting = record started { control = record running { thread_shutdown = true }; joining = true }

waits_for_thread : Reach waiting
unfolding begin_join
waits_for_thread =
    next starts_thread (begins_join (record running { thread_shutdown = true }) refl refl)

join_ends_example :
    ((t : Threads) × Step waiting t)
    × ((n : ℕ) (u : Threads) → Waits waiting n u → n ≤ 2)
    × ((t : Threads)
        → Step waiting t
        → t.joining ≡ false
        → (t.control.bg_thread ≡ 0) × ((u : ℕ) → t.threads u ≡ none))
join_ends_example = join_ends waiting waits_for_thread refl

-- A port that has been reset and enabled.
abbrev pub enabled : PortStat
enabled = record { status = 0x0103; change = 0x0010; flags = 0 }

abbrev pub memory : Memory
memory = record {
  new_address = λ store. if is_some (store 20) then none else some 20;
  fits = true;
  malloc = true;
}

pub memory-IsFresh : IsFresh memory
memory-IsFresh store q e = ground (arith, some-injective 20 q)

-- The device that is connected to it has the address 0, and the client has its event in hand.
abbrev after_reset : LocalHcd
after_reset = record new_controller {
  processing = 20 ∷ [];
  store =
      put (λ p. none) 20
        (some (record {
          port = 1;
          canceled = false;
          kind = port_stat_work enabled (trigger_flags sample enabled no_stat);
        }));
  derived = record (new_controller.derived) { port_info = record { adr = 0; stat = enabled } ∷ [] };
}

resets :
    run linux sample (port_event 1 enabled none memory ∷ hand true ∷ []) new_controller
    ≡ some after_reset
unfolding port_stat_attempt update_port enqueue_work on_work_enqueued next_work next_work_loop
    new_port_stat_work get_connection_changed get_reset_changed get_reset get_enable has
resets = refl

run_bounds_example :
    (after_reset.port_count ≡ 1)
    × (length after_reset.derived.port_info ≡ 1)
    × All IsAddress after_reset.derived.port_info
    × ((address : ℕ)
        → address ≤ 0x7f
        → (port : ℕ) × (port_from_address address after_reset ≡ done port after_reset) × (port ≤ 1))
run_bounds_example =
    run_bounds linux sample 1 poor 3 told new_controller running new_controller-IsNew
      (port_event 1 enabled none memory ∷ hand true ∷ []) after_reset resets

event_taken-AllAllowed :
    AllAllowed linux sample (port_event 1 enabled none memory ∷ hand true ∷ []) new_controller
event_taken-AllAllowed =
    ((memory-IsFresh, λ q e. ground (arith, e)), λ t left. (refl, λ u left_then. tt))

life_frees_example :
    (u : LocalHcd) × (destroy_local eintr 2 closing after_reset running
      ≡ some (as_returned (answer tt) (replicate 2 (closes 3)), no_thread, done tt u))
    × ((p : ℕ) → u.store p ≡ none)
life_frees_example =
    life_frees linux sample eintr 2 1 closing closing-Settles (omega arith) poor 1 3 told
      new_controller running new_controller-IsNew
      (port_event 1 enabled none memory ∷ hand true ∷ []) after_reset event_taken-AllAllowed resets
