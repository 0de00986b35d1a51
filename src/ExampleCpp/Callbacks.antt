-- ===== src/ExampleCpp/Callbacks.antt =====
-- examples/virtual_device.cpp: the callback that `main` registers, and what the callbacks that a
-- controller calls do to the variables under `has_work_mutex`.
use usb_vhci_libusb.Prelude.{
  ◌≡◌, refl, Bool, true, false, arith, ◌==◌, ◌||◌, if◌then◌else◌, List, [], ◌∷◌, ◌++◌, Bool-cases,
  inl, inr,
}
use usb_vhci_libusb.Hcd.{Callback}
use usb_vhci_libusb.ExampleCpp.{Shared, signal_work_enqueued}

-- `callback(&signal_work_enqueued, NULL)`.
abbrev pub signal_callback : Callback
signal_callback = record { func = 1; arg = 0 }

abbrev pub is_signal : Callback → Bool
is_signal c = c.func == 1

-- The callbacks are called in their order; no other function touches the variables.
abbrev pub call_all : Bool → List Callback → Shared → Shared
call_all sleeps [] s = s
call_all sleeps (c ∷ cs) s =
    call_all sleeps cs (if is_signal c then signal_work_enqueued sleeps s else s)

-- The trace without its beginning.
abbrev pub since : List Callback → List Callback → List Callback
since [] all = all
since (c ∷ cs) [] = []
since (c ∷ cs) (d ∷ all) = since cs all

pub since-append : (cs all : List Callback) → since cs (cs ++ all) ≡ all
since-append [] all = refl
since-append (c ∷ cs) all = since-append cs all

-- `signal_work_enqueued` is among the callbacks.
abbrev pub tells : List Callback → Bool
tells [] = false
tells (c ∷ cs) = is_signal c || tells cs

pub tells-added : (cs : List Callback) → tells (cs ++ signal_callback ∷ []) ≡ true
tells-added [] = refl
tells-added (c ∷ cs) = ground (arith, tells-added cs)

keeps_told :
    (sleeps : Bool) (cs : List Callback) (s : Shared)
    → s.has_work ≡ true
    → (call_all sleeps cs s).has_work ≡ true
unfolding signal_work_enqueued
keeps_told sleeps [] s told = told
keeps_told sleeps (c ∷ cs) s told = keeps_told sleeps cs _ (ground arith)

-- The call tells the client that there is work.
pub call_all-tells :
    (sleeps : Bool) (cs : List Callback) (s : Shared)
    → tells cs ≡ true
    → (call_all sleeps cs s).has_work ≡ true
unfolding signal_work_enqueued
call_all-tells sleeps [] s among = absurd (ground (arith, among))
call_all-tells sleeps (c ∷ cs) s among = elim (Bool-cases (is_signal c)) [
  | inl signals ↦ keeps_told sleeps cs _ (ground (arith, signals))
  | inr other ↦ call_all-tells sleeps cs _ (ground (arith, among, other))
]

-- A signal stays on its way.
pub call_all-keeps :
    (sleeps : Bool) (cs : List Callback) (s : Shared)
    → s.signalled ≡ true
    → (call_all sleeps cs s).signalled ≡ true
unfolding signal_work_enqueued
call_all-keeps sleeps [] s signalled = signalled
call_all-keeps sleeps (c ∷ cs) s signalled = call_all-keeps sleeps cs _ (ground arith)

-- A client that sleeps and has said so is signalled.
pub call_all-signals :
    (cs : List Callback) (s : Shared)
    → tells cs ≡ true
    → s.waiting_for_work ≡ true
    → (call_all true cs s).signalled ≡ true
unfolding signal_work_enqueued
call_all-signals [] s among waits = absurd (ground (arith, among))
call_all-signals (c ∷ cs) s among waits = elim (Bool-cases (is_signal c)) [
  | inl signals ↦ call_all-keeps true cs _ (ground (arith, signals))
  | inr other ↦ call_all-signals cs _ (ground (arith, among, other)) (ground (arith, other))
]
