-- ===== src/Hcd/Thread/Joins.antt =====
-- Whatever clients and threads do, at most one background thread exists.
use usb_vhci_libusb.Prelude.{
  ℕ, ◌≡◌, ◌≢◌, inl, inr, refl, sym, subst, ap, ◌∙◌, true, false, Option, none, some, Option-cases,
  is_some, arith,
}
use mathlib.Core.Option.{some-injective}
use usb_vhci_libusb.Outcome.{done}
use usb_vhci_libusb.Device.{answer}
use usb_vhci_libusb.Hcd.Thread.{
  Control, init_bg_thread, begin_join, end_join, BgPc, checks, works, ended, bg_thread_start,
  Threads, at, Step, creates, refuses, begins_join, joins_none, ends_join, runs, Reach, here, next,
}
use usb_vhci_libusb.Hcd.Thread.Invariant.{
  init-created, init-refused, begin_join-started, Inv, initial-Inv, at_self, at-cases, vacant,
}

module _ (s : Threads) (inv : Inv s) where
  creates-Inv :
      (t : ℕ) (c : Control)
      → s.joining ≡ false
      → t ≢ 0
      → init_bg_thread (answer t) s.control ≡ done tt c
      → Inv (record s { control = c; threads = at s.threads t (some checks) })
  creates-Inv t c free named e = record {
    alone = λ u pc live. elim (at-cases s.threads t (some checks) u) [
      | inl (same, _) ↦ sym same ∙ now
      | inr (_, old) ↦ absurd (ground (arith, sym live ∙ old ∙ vacant s inv idle u))
    ];
    nobody = elim (at-cases s.threads t (some checks) 0) [
      | inl (same, _) ↦ absurd (named same)
      | inr (_, old) ↦ old ∙ inv.nobody
    ];
    lives = λ n.
        subst (λ (u : ℕ). is_some (at s.threads t (some checks) u) ≡ true) now
          (rw (at_self s.threads t (some checks)) refl);
    flag = ap (λ (x : Control). x.thread_shutdown) made.1 ∙ inv.flag;
    ends_late = λ u live. elim (at-cases s.threads t (some checks) u) [
      | inl (_, fresh) ↦ absurd (ground (arith, sym fresh ∙ live))
      | inr (_, old) ↦ inv.ends_late u (sym old ∙ live)
    ];
    held = λ j. absurd (ground (arith, sym free ∙ j));
  }
    where
      made : (s.control.bg_thread ≡ 0) × (c ≡ record (s.control) { bg_thread = t })
      made = init-created t s.control c e

      idle : s.control.bg_thread ≡ 0
      idle = made.0

      now : t ≡ c.bg_thread
      now = sym (ap (λ (x : Control). x.bg_thread) made.1)

  begins_join-Inv :
      (c : Control) → begin_join s.control ≡ some c → Inv (record s { control = c; joining = true })
  begins_join-Inv c e = rw (begun.1) (record {
    alone = inv.alone;
    nobody = inv.nobody;
    lives = inv.lives;
    flag = refl;
    ends_late = λ t live. refl;
    held = λ j. begun.0;
  })
    where
      begun : (s.control.bg_thread ≢ 0) × (c ≡ record (s.control) { thread_shutdown = true })
      begun = begin_join-started s.control c e

  ends_join-Inv : Inv (record {
    control = end_join s.control;
    threads = at s.threads s.control.bg_thread none;
    joining = false;
  })
  unfolding end_join
  ends_join-Inv = record {
    alone = λ u pc live. absurd (ground (arith, sym (gone u) ∙ live));
    nobody = gone 0;
    lives = λ n. absurd (n refl);
    flag = refl;
    ends_late = λ u live. absurd (ground (arith, sym (gone u) ∙ live));
    held = λ j. absurd (ground (arith, j));
  }
    where
      gone : (u : ℕ) → at s.threads s.control.bg_thread none u ≡ none
      gone u = elim (at-cases s.threads s.control.bg_thread none u) [
        | inl (_, e) ↦ e
        | inr (apart, old) ↦ elim (Option-cases (s.threads u)) [
          | inl e ↦ old ∙ e
          | inr (pc, e) ↦ absurd (apart (sym (inv.alone u pc e)))
        ]
      ]

  ends_when_told : (p : BgPc) → p ≢ ended → bg_thread_start s.control p ≡ ended → s.joining ≡ true
  unfolding bg_thread_start
  ends_when_told checks n e = ground (arith, e, inv.flag)
  ends_when_told works n e = ground (arith, e)
  ends_when_told ended n e = absurd (n refl)

  runs-Inv :
      (t : ℕ) (pc : BgPc)
      → s.threads t ≡ some pc
      → pc ≢ ended
      → Inv (record s { threads = at s.threads t (some (bg_thread_start s.control pc)) })
  unfolding bg_thread_start
  runs-Inv t pc live runs_on = record {
    alone = λ u other there. elim (at-cases s.threads t moved u) [
      | inl (same, _) ↦ sym same ∙ inv.alone t pc live
      | inr (_, old) ↦ inv.alone u other (sym old ∙ there)
    ];
    nobody = elim (at-cases s.threads t moved 0) [
      | inl (same, _) ↦ absurd (never (rw same at live))
      | inr (_, old) ↦ old ∙ inv.nobody
    ];
    lives = λ n. rw (sym (inv.alone t pc live), at_self s.threads t moved) refl;
    flag = inv.flag;
    ends_late = λ u there. elim (at-cases s.threads t moved u) [
      | inl (_, new) ↦ ends_when_told pc runs_on (some-injective _ _ (sym new ∙ there))
      | inr (_, old) ↦ inv.ends_late u (sym old ∙ there)
    ];
    held = inv.held;
  }
    where
      moved : Option BgPc
      moved = some (bg_thread_start s.control pc)

      never : s.threads 0 ≢ some pc
      never e = ground (arith, e, inv.nobody)

pub Step-Inv : {s t : Threads} → Step s t → Inv s → Inv t
Step-Inv {s} (creates t c free named absent e) inv = creates-Inv s inv t c free named e
Step-Inv {s} (refuses reply c free e) inv = rw (init-refused reply s.control c e) inv
Step-Inv {s} (begins_join c free e) inv = begins_join-Inv s inv c e
Step-Inv (joins_none free e) inv = inv
Step-Inv {s} (ends_join joins over) inv = ends_join-Inv s inv
Step-Inv {s} (runs t pc live going) inv = runs-Inv s inv t pc live going

pub Reach-Inv : {s : Threads} → Reach s → Inv s
Reach-Inv here = initial-Inv
Reach-Inv (next r st) = Step-Inv st (Reach-Inv r)

-- Whatever clients and threads do from the start on, in any order: at most one thread exists, and
-- it is the one that the controller knows of; while no client waits for its end, none exists if the
-- controller knows of none, the flag that shuts it down is clear, and it has not ended.
pub one_thread :
    (s : Threads)
    → Reach s
    → ((t u : ℕ) → is_some (s.threads t) ≡ true → is_some (s.threads u) ≡ true → t ≡ u)
      × ((t : ℕ) → is_some (s.threads t) ≡ true → t ≡ s.control.bg_thread)
      × (s.joining ≡ false
          → (s.control.bg_thread ≡ 0 → (t : ℕ) → s.threads t ≡ none)
            × (s.control.thread_shutdown ≡ false)
            × ((t : ℕ) → s.threads t ≢ some ended))
one_thread s reached =
    let inv = Reach-Inv reached in
    let known : (t : ℕ) → is_some (s.threads t) ≡ true → t ≡ s.control.bg_thread = λ t live.
      elim (Option-cases (s.threads t)) [
        | inl e ↦ absurd (ground (arith, sym live ∙ ap is_some e))
        | inr (pc, e) ↦ inv.alone t pc e
      ] in
    (
      λ t u live live'. known t live ∙ sym (known u live'),
      known,
      λ free. (vacant s inv, inv.flag ∙ free, λ t e. ground (arith, sym free ∙ inv.ends_late t e)),
    )
