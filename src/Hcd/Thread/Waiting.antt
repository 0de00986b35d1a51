-- ===== src/Hcd/Thread/Waiting.antt =====
-- A join comes to its end.
use usb_vhci_libusb.Prelude.{
  ℕ, ◌≡◌, ◌≢◌, ◌≤◌, ◌<◌, ◌+◌, refl, sym, ap, ◌∙◌, true, false, Option, none, some, Option-cases,
  inl, inr, is_some, arith,
}
use usb_vhci_libusb.Hcd.Thread.{
  BgPc, checks, works, ended, bg_thread_start, Threads, Step, creates, refuses, begins_join,
  end_join, joins_none, ends_join, runs, Reach, Waits, waits_here, waits_on,
}
use usb_vhci_libusb.Hcd.Thread.Joins.{Step-Inv, Reach-Inv}
use usb_vhci_libusb.Hcd.Thread.Invariant.{Inv, vacant, at_self}

-- The steps that a thread has left once it is to shut down.
abbrev rank : Option BgPc → ℕ
rank none = 0
rank (some works) = 2
rank (some checks) = 1
rank (some ended) = 0

abbrev left : Threads → ℕ
left s = rank (s.threads s.control.bg_thread)

rank_bound : (pc : Option BgPc) → rank pc ≤ 2
rank_bound none = omega arith
rank_bound (some works) = omega arith
rank_bound (some checks) = omega arith
rank_bound (some ended) = omega arith

module _ (s : Threads) (told : s.control.thread_shutdown ≡ true) where
  rank_falls :
      (pc : BgPc) → pc ≢ ended → rank (some (bg_thread_start s.control pc)) < rank (some pc)
  unfolding bg_thread_start
  rank_falls checks going = rw (told, bg_thread_start) (omega arith)
  rank_falls works going = omega arith
  rank_falls ended going = absurd (going refl)

-- A step after which the join still waits is one of its thread.
Step-left :
    {s t : Threads} → Inv s → s.joining ≡ true → Step s t → t.joining ≡ true → left t < left s
unfolding bg_thread_start
Step-left inv waits (creates t c free named absent e) on = absurd (ground (arith, sym free ∙ waits))
Step-left inv waits (refuses reply c free e) on = absurd (ground (arith, sym free ∙ waits))
Step-left inv waits (begins_join c free e) on = absurd (ground (arith, sym free ∙ waits))
Step-left inv waits (joins_none free e) on = absurd (ground (arith, sym free ∙ waits))
Step-left inv waits (ends_join joins over) on = absurd (ground (arith, on))
Step-left {s} inv waits (runs t pc live going) on =
    rw (sym (inv.alone t pc live), at_self s.threads t (some (bg_thread_start s.control pc)), live)
      (rank_falls s (inv.flag ∙ waits) pc going)

Waits-joining : {s u : Threads} {n : ℕ} → Waits s n u → s.joining ≡ true
Waits-joining (waits_here j) = j
Waits-joining (waits_on j st rest) = j

Waits-bound : {s u : Threads} {n : ℕ} → Inv s → Waits s n u → n + left u ≤ left s
Waits-bound inv (waits_here j) = omega arith
Waits-bound inv (waits_on j st rest) =
    omega (arith, Step-left inv j st (Waits-joining rest), Waits-bound (Step-Inv st inv) rest)

can_move : (s : Threads) → Inv s → s.joining ≡ true → (t : Threads) × Step s t
can_move s inv waits = elim (Option-cases (s.threads s.control.bg_thread)) [
  | inl e ↦ absurd (ground (arith, sym (inv.lives (inv.held waits)) ∙ ap is_some e))
  | inr (pc, e) ↦ moves pc e
]
  where
    moves : (pc : BgPc) → s.threads s.control.bg_thread ≡ some pc → (t : Threads) × Step s t
    moves checks e = (_, runs s.control.bg_thread checks e (λ x. ground (arith, x)))
    moves works e = (_, runs s.control.bg_thread works e (λ x. ground (arith, x)))
    moves ended e = (_, ends_join waits e)

leaves_none :
    {s t : Threads}
    → Inv s
    → s.joining ≡ true
    → Step s t
    → t.joining ≡ false
    → t.control.bg_thread ≡ 0
unfolding end_join
leaves_none inv waits (creates t c free named absent e) over =
    absurd (ground (arith, sym free ∙ waits))
leaves_none inv waits (refuses reply c free e) over = absurd (ground (arith, sym free ∙ waits))
leaves_none inv waits (begins_join c free e) over = absurd (ground (arith, sym free ∙ waits))
leaves_none inv waits (joins_none free e) over = absurd (ground (arith, sym free ∙ waits))
leaves_none inv waits (ends_join joins at_end) over = refl
leaves_none inv waits (runs t pc live going) over = absurd (ground (arith, sym waits ∙ over))

-- A join returns. From a reachable state in which a client waits for the thread's end, some step
-- can always be made, and at most two are made before the one that ends the join; after that one no
-- thread exists and the controller knows of none. A run of the loop's body is one step of the
-- thread.
pub join_ends :
    (s : Threads)
    → Reach s
    → s.joining ≡ true
    → ((t : Threads) × Step s t)
      × ((n : ℕ) (u : Threads) → Waits s n u → n ≤ 2)
      × ((t : Threads)
          → Step s t
          → t.joining ≡ false
          → (t.control.bg_thread ≡ 0) × ((u : ℕ) → t.threads u ≡ none))
join_ends s reached waits =
    let inv = Reach-Inv reached in
    (
      can_move s inv waits,
      λ n u w. omega (arith, Waits-bound inv w, rank_bound (s.threads s.control.bg_thread)),
      λ t st over.
          let none_known = leaves_none inv waits st over in
          (none_known, vacant t (Step-Inv st inv) none_known),
    )
