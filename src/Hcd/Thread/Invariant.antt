-- ===== src/Hcd/Thread/Invariant.antt =====
-- The invariant of the background thread: at most one exists.
use usb_vhci_libusb.Prelude.{
  ℕ, ◌≡◌, ◌≢◌, ◌⊎◌, inl, inr, refl, sym, true, ◌==◌, ==_refl, Option, none, some, Bool-cases,
  Option-cases, is_some, arith,
}
use mathlib.Core.Option.{some-injective}
use usb_vhci_libusb.Outcome.{
  Outcome, done, throws, other_exception, done-state, throws-state, throws-done,
}
use usb_vhci_libusb.Device.{Reply, answer, failed}
use usb_vhci_libusb.Hcd.Thread.{
  Control, init_bg_thread, begin_join, BgPc, ended, Threads, initial, at,
}

pub init-created :
    (t : ℕ) (c d : Control)
    → init_bg_thread (answer t) c ≡ done tt d
    → (c.bg_thread ≡ 0) × (d ≡ record c { bg_thread = t })
unfolding init_bg_thread
init-created t c d e = elim (Bool-cases (c.bg_thread == 0)) [
  | inl idle ↦ (ground arith, sym (done-state _ _ _ _ (rw idle at e)))
  | inr busy ↦ absurd (throws-done _ _ _ _ (rw busy at e))
]

pub init-refused :
    (reply : Reply ℕ) (c d : Control) → init_bg_thread reply c ≡ throws other_exception d → d ≡ c
unfolding init_bg_thread
init-refused reply c d e = elim (Bool-cases (c.bg_thread == 0)) [
  | inl idle ↦ by_reply reply (rw idle at e)
  | inr busy ↦ sym (throws-state _ _ _ _ (rw busy at e))
]
  where
    by_reply :
        (r : Reply ℕ)
        → elim r as (λ r. Outcome Control (Unit {0})) [
          | failed code ↦ throws other_exception c
          | answer t ↦ done tt (record c { bg_thread = t })
        ]
          ≡ throws other_exception d
        → d ≡ c
    by_reply (failed code) e = sym (throws-state _ _ _ _ e)
    by_reply (answer t) e = absurd (throws-done _ _ _ _ (sym e))

pub begin_join-started :
    (c d : Control)
    → begin_join c ≡ some d
    → (c.bg_thread ≢ 0) × (d ≡ record c { thread_shutdown = true })
unfolding begin_join
begin_join-started c d e = elim (Bool-cases (c.bg_thread == 0)) [
  | inl idle ↦ absurd (ground (arith, rw idle at e))
  | inr busy ↦ ((λ none_there. ground arith), sym (some-injective _ _ (rw busy at e)))
]

-- `flag` is what the thread reads, `held` that a join waits for some thread.
pub record Inv (s : Threads) : Type 0 where
  pub alone : (t : ℕ) (pc : BgPc) → s.threads t ≡ some pc → t ≡ s.control.bg_thread
  pub nobody : s.threads 0 ≡ none
  pub lives : s.control.bg_thread ≢ 0 → is_some (s.threads s.control.bg_thread) ≡ true
  pub flag : s.control.thread_shutdown ≡ s.joining
  pub ends_late : (t : ℕ) → s.threads t ≡ some ended → s.joining ≡ true
  pub held : s.joining ≡ true → s.control.bg_thread ≢ 0

pub initial-Inv : Inv initial
initial-Inv = record {
  alone = λ t pc e. ground (arith, e);
  nobody = refl;
  lives = λ n. absurd (n refl);
  flag = refl;
  ends_late = λ t e. ground (arith, e);
  held = λ e. ground (arith, e);
}

-- No thread but `t` is left when `t` was the only one.
pub at_self : (threads : ℕ → Option BgPc) (t : ℕ) (pc : Option BgPc) → at threads t pc t ≡ pc
at_self threads t pc = rw (==_refl t) refl

pub at-cases :
    (threads : ℕ → Option BgPc) (t : ℕ) (pc : Option BgPc) (u : ℕ)
    → ((t ≡ u) × (at threads t pc u ≡ pc)) ⊎ ((t ≢ u) × (at threads t pc u ≡ threads u))
at-cases threads t pc u = elim (Bool-cases (t == u)) [
  | inl same ↦ inl (ground arith, rw same refl)
  | inr apart ↦ inr ((λ e. ground arith), rw apart refl)
]

-- While no thread is recorded there is none.
pub vacant : (s : Threads) → Inv s → s.control.bg_thread ≡ 0 → (t : ℕ) → s.threads t ≡ none
vacant s inv idle t = elim (Option-cases (s.threads t)) [
  | inl e ↦ e
  | inr (pc, e) ↦ rw (inv.alone t pc e, idle) inv.nobody
]
