-- ===== src/Hcd/Drain.antt =====
-- A client that calls `next_work` again and again is handed all the work that waits.
use usb_vhci_libusb.Prelude.{
  ℕ, zero, suc, ◌≡◌, refl, sym, ap, ◌∙◌, true, Bool, Option, List, [], ◌∷◌, ◌++◌, length,
}
use mathlib.Core.List.{append-nil, append_assoc}
use usb_vhci_libusb.Outcome.{done, Method, ◌>>=◌, pure}
use usb_vhci_libusb.Hcd.{Hcd, next_work}
use usb_vhci_libusb.Hcd.Owned.{Owns, pending}
use usb_vhci_libusb.Hcd.Next.{first, others, singleton, next_work-Hands}

module _ {D : Type 0} where
  -- `n` calls, each with memory for its work, and the works that they hand out.
  pub next_works : ℕ → Method (Hcd D) (List ℕ)
  next_works zero = pure []
  next_works (suc n) = do r ← next_work true; rest ← next_works n; pure (singleton r.0 ++ rest)

  one_more :
      (n : ℕ) (h u t : Hcd D) (r : Option ℕ × Bool) (ws : List ℕ)
      → next_work true h ≡ done r u
      → next_works n u ≡ done ws t
      → next_works (suc n) h ≡ done (singleton r.0 ++ ws) t
  unfolding next_works
  one_more n h u t r ws runs more = rw (runs, ◌>>=◌) (rw (more, ◌>>=◌))

  pub record Drains (h t : Hcd D) (ws : List ℕ) : Type 0 where
    pub owns : Owns t
    pub empty : pending t.store t.inbox ≡ []
    pub handed : t.processing ≡ h.processing ++ ws

  -- In every state whose containers own the works, and if each call has the memory to hold its work
  -- in `processing`: as many calls of `next_work` as there are works that wait and are not canceled
  -- hand out just these, in their order; afterwards none waits, and all of them are in processing.
  pub next_works-pending :
      (ws : List ℕ) (h : Hcd D)
      → Owns h
      → pending h.store h.inbox ≡ ws
      → (t : Hcd D) × (next_works (length ws) h ≡ done ws t) × Drains h t ws
  unfolding next_works
  next_works-pending [] h own e =
      (h, refl, record { owns = own; empty = e; handed = sym (append-nil h.processing) })
  next_works-pending (w ∷ ws) h own e =
      let (r, u, runs, hands) = next_work-Hands h own in
      let (t, more, drains) = next_works-pending ws u hands.owns (hands.remaining ∙ ap others e) in
      let is_w : singleton r.0 ≡ w ∷ [] = ap singleton (hands.oldest ∙ ap first e) in
      (
        t,
        one_more (length ws) h u t r ws runs more ∙ ap (λ (s : List ℕ). done (s ++ ws) t) is_w,
        record {
          owns = drains.owns;
          empty = drains.empty;
          handed =
              drains.handed
              ∙ ap (λ (ps : List ℕ). ps ++ ws)
                  (hands.handed ∙ ap (λ (s : List ℕ). h.processing ++ s) is_w)
              ∙ append_assoc h.processing (w ∷ []) ws;
        },
      )
