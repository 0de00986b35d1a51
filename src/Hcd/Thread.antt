-- ===== src/Hcd/Thread.antt =====
-- The control of the background thread in src/hcd.cpp: `init_bg_thread`, `join_bg_thread` and
-- `bg_thread_start`, with any number of client threads that call the first two. Both run under
-- `thread_sync`; a join keeps it while it waits for the thread's end.
pub mod Invariant
pub mod Joins
pub mod Waiting
use usb_vhci_libusb.Prelude.{
  ℕ, zero, suc, ◌≡◌, ◌≢◌, Bool, true, false, not, ◌==◌, if◌then◌else◌, Option, none, some,
}
use usb_vhci_libusb.Outcome.{Outcome, done, throws, other_exception, Method}
use usb_vhci_libusb.Device.{Reply, answer, failed}

-- The members of `hcd` that control the thread. 0 stands for `pthread_t()`, no thread.
pub record Control : Type 0 where
  pub bg_thread : ℕ
  pub thread_shutdown : Bool

-- `reply` is the answer of `pthread_create`.
unfoldable pub init_bg_thread : Reply ℕ → Method Control (Unit {0})
init_bg_thread reply c = if not (c.bg_thread == 0) then throws other_exception c else elim reply [
  | failed code ↦ throws other_exception c
  | answer t ↦ done tt (record c { bg_thread = t })
]

-- `join_bg_thread` up to `pthread_join`; `none` is the early return.
unfoldable pub begin_join : Control → Option Control
begin_join c = if c.bg_thread == 0 then none else some (record c { thread_shutdown = true })

-- What follows on `pthread_join`.
unfoldable pub end_join : Control → Control
end_join c = record { bg_thread = 0; thread_shutdown = false }

-- A place in `bg_thread_start`: the condition of the loop, its body, and the end of the thread.
pub data BgPc : Type 0 where
  checks works ended : BgPc

unfoldable pub bg_thread_start : Control → BgPc → BgPc
bg_thread_start c checks = if not c.thread_shutdown then works else ended
bg_thread_start c works = checks
bg_thread_start c ended = ended

-- The constructor's values.
abbrev pub no_thread : Control
no_thread = record { bg_thread = 0; thread_shutdown = false }

-- `threads` are those that run `bg_thread_start` or have ended and are not yet joined. `joining`
-- says whether some client holds `thread_sync` and waits in `pthread_join`.
pub record Threads : Type 0 where
  pub control : Control
  pub threads : ℕ → Option BgPc
  pub joining : Bool

abbrev pub initial : Threads
initial = record { control = no_thread; threads = λ t. none; joining = false }

abbrev pub at : (ℕ → Option BgPc) → ℕ → Option BgPc → ℕ → Option BgPc
at threads t pc u = if t == u then pc else threads u

-- One step of one of the threads. `pthread_create` answers a new identifier.
pub data Step (s : Threads) : Threads → Type 0 where
  creates :
      (t : ℕ) (c : Control)
      → s.joining ≡ false
      → t ≢ 0
      → s.threads t ≡ none
      → init_bg_thread (answer t) s.control ≡ done tt c
      → Step s (record s { control = c; threads = at s.threads t (some checks) })
  refuses :
      (reply : Reply ℕ) (c : Control)
      → s.joining ≡ false
      → init_bg_thread reply s.control ≡ throws other_exception c
      → Step s (record s { control = c })
  begins_join :
      (c : Control)
      → s.joining ≡ false
      → begin_join s.control ≡ some c
      → Step s (record s { control = c; joining = true })
  joins_none : s.joining ≡ false → begin_join s.control ≡ none → Step s s
  ends_join :
      s.joining ≡ true
      → s.threads s.control.bg_thread ≡ some ended
      → Step s (record {
        control = end_join s.control;
        threads = at s.threads s.control.bg_thread none;
        joining = false;
      })
  runs :
      (t : ℕ) (pc : BgPc)
      → s.threads t ≡ some pc
      → pc ≢ ended
      → Step s (record s { threads = at s.threads t (some (bg_thread_start s.control pc)) })

pub data Reach : Threads → Type 0 where
  here : Reach initial
  next : {s t : Threads} → Reach s → Step s t → Reach t

-- A run of `n` steps during all of which one client waits in `pthread_join`.
pub data Waits : Threads → ℕ → Threads → Type 0 where
  waits_here : {s : Threads} → s.joining ≡ true → Waits s 0 s
  waits_on :
      {s t u : Threads} {n : ℕ} → s.joining ≡ true → Step s t → Waits t n u → Waits s (suc n) u
