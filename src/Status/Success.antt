-- ===== src/Status/Success.antt =====
-- Success and failure are never taken for one another.
use usb_vhci_libusb.Prelude.{
  ◌≡◌, ◌↔◌, refl, Bool, true, false, arith, ℤ, pos, neg, switch_cases, All,
}
use usb_vhci_libusb.Errno.{Errno, IsErrno}
use usb_vhci_libusb.Status.{success, error, to_errno_cases, to_errno, from_errno_cases, from_errno}

module _ (e : Errno) (h : IsErrno e) where
  abbrev Tells : ℤ → ℤ → Type 0
  Tells status errno = errno ≡ pos 0 → status ≡ success

  Tells-cases : (iso : Bool) → All (λ c. Tells c.0 c.1) (to_errno_cases e iso)
  Tells-cases true = ground arith
  Tells-cases false = ground arith

  -- Given distinct and non-zero errno values, a status is sent as 0 exactly when it is SUCCESS.
  to_errno-zero_iff :
      (status : ℤ) (iso : Bool) → (to_errno e status iso ≡ pos 0) ↔ (status ≡ success)
  to_errno-zero_iff status iso = (only status iso, λ q. rw q (zero iso))
    where
      only : (status : ℤ) (iso : Bool) → to_errno e status iso ≡ pos 0 → status ≡ success
      only status iso =
          unfold to_errno in
          switch_cases Tells status (to_errno_cases e iso) (neg e.eproto) (Tells-cases iso)
            (λ _ q. absurd (ground arith))

      zero : (iso : Bool) → to_errno e success iso ≡ pos 0
      zero iso = unfold to_errno in refl

module _ (e : Errno) where
  abbrev Reads : ℤ → ℤ → Type 0
  Reads errno status = status ≡ success → errno ≡ pos 0

  Reads-cases : (iso : Bool) → All (λ c. Reads c.0 c.1) (from_errno_cases e iso)
  Reads-cases true = ground arith
  Reads-cases false = ground arith

  -- An errno value is read as SUCCESS exactly when it is 0.
  from_errno-success_iff :
      (errno : ℤ) (iso : Bool) → (from_errno e errno iso ≡ success) ↔ (errno ≡ pos 0)
  from_errno-success_iff errno iso = (only errno iso, λ q. rw q (zero iso))
    where
      only : (errno : ℤ) (iso : Bool) → from_errno e errno iso ≡ success → errno ≡ pos 0
      only errno iso =
          unfold from_errno in
          switch_cases Reads errno (from_errno_cases e iso) error (Reads-cases iso)
            (λ _ q. absurd (ground arith))

      zero : (iso : Bool) → from_errno e (pos 0) iso ≡ success
      zero iso = unfold from_errno in refl

-- Success and failure are never taken for one another. Given distinct and non-zero errno values, a
-- status is sent as 0 exactly when it is SUCCESS, and an errno value is read as SUCCESS exactly
-- when it is 0.
success_iff :
    (e : Errno)
    → IsErrno e
    → (z : ℤ) (iso : Bool)
    → ((to_errno e z iso ≡ pos 0) ↔ (z ≡ success)) × ((from_errno e z iso ≡ success) ↔ (z ≡ pos 0))
success_iff e h z iso = (to_errno-zero_iff e h z iso, from_errno-success_iff e z iso)
