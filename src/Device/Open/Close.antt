-- ===== src/Device/Open/Close.antt =====
-- `usb_vhci_close` comes to its end.
use usb_vhci_libusb.Prelude.{
  ℕ, zero, suc, ◌+◌, ◌<◌, ◌≡◌, ◌≢◌, inl, inr, refl, ap, ◌==◌, ==_refl, Bool-cases, some, List, [],
  ◌∷◌, replicate, pos, arith,
}
use usb_vhci_libusb.Device.{Reply, answer, failed, Returned, fails, returns}
use usb_vhci_libusb.Device.Open.{SystemCall, closes, close_loop, usb_vhci_close}

-- The first answer that is not EINTR is the one after `n` others.
abbrev pub Settles : ℕ → (ℕ → Reply (Unit {0})) → ℕ → Type 0
Settles eintr replies n = ((i : ℕ) → i < n → replies i ≡ failed eintr) × (replies n ≢ failed eintr)

-- What a function returns for an answer of the system.
abbrev pub as_returned : {A : Type 0} → Reply (Unit {0}) → A → Returned A
as_returned (answer _) a = returns (pos 0) a
as_returned (failed code) a = fails code a

module _ (eintr fd : ℕ) (replies : ℕ → Reply (Unit {0})) where
  last_round :
      (fuel i : ℕ) (r : Reply (Unit {0}))
      → replies i ≡ r
      → r ≢ failed eintr
      → close_loop eintr (suc fuel) i fd replies ≡ some (as_returned r (closes fd ∷ []))
  unfolding close_loop
  last_round fuel i (answer _) e other = rw (e, close_loop) refl
  last_round fuel i (failed code) e other = elim (Bool-cases (code == eintr)) [
    | inl same ↦ absurd (other (ap failed (ground arith)))
    | inr apart ↦ rw (e, close_loop) (rw apart refl)
  ]

  close_loop_lem :
      (m fuel n i : ℕ)
      → n < fuel
      → i + n ≡ m
      → ((j : ℕ) → j < m → replies j ≡ failed eintr)
      → replies m ≢ failed eintr
      → close_loop eintr fuel i fd replies
        ≡ some (as_returned (replies m) (replicate (suc n) (closes fd)))
  unfolding close_loop
  close_loop_lem m zero n i enough sum before there = absurd (omega arith)
  close_loop_lem m (suc fuel) zero i enough sum before there =
      let at_m : i ≡ m = omega arith in rw at_m (last_round fuel m (replies m) refl there)
  close_loop_lem m (suc fuel) (suc n) i enough sum before there =
      rw (before i (omega arith), close_loop)
        (rw
          (==_refl eintr, close_loop_lem m fuel n (i + 1) (omega arith) (omega arith) before there)
          (ap some (rebuild (replies m))))
    where
      rebuild :
          (r : Reply (Unit {0}))
          → ◌≡◌ {A = Returned (List SystemCall)}
              (record (as_returned r (replicate (suc n) (closes fd))) {
                output = closes fd ∷ (as_returned r (replicate (suc n) (closes fd))).output;
              })
              (as_returned r (closes fd ∷ replicate (suc n) (closes fd)))
      rebuild (answer _) = refl
      rebuild (failed code) = refl

pub output_of :
    (r : Reply (Unit {0})) (a : List SystemCall)
    → ◌≡◌ {A = List SystemCall} (as_returned r a).output a
output_of (answer _) a = refl
output_of (failed code) a = refl

-- `usb_vhci_close` returns: if the kernel answers something else than EINTR after `n` calls of
-- `close`, it makes those and that one call, on its descriptor, whatever the number of rounds above
-- `n` that it is allowed, and returns 0 or -1 with the error number, as the last call did.
pub usb_vhci_close-returns :
    (eintr fuel fd n : ℕ) (replies : ℕ → Reply (Unit {0}))
    → Settles eintr replies n
    → n < fuel
    → usb_vhci_close eintr fuel fd replies
      ≡ some (as_returned (replies n) (replicate (suc n) (closes fd)))
unfolding usb_vhci_close
usb_vhci_close-returns eintr fuel fd n replies settles enough =
    close_loop_lem eintr fd replies n fuel n 0 enough (omega arith) settles.0 settles.1
