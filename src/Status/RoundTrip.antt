-- ===== src/Status/RoundTrip.antt =====
-- What survives the way from a status code to an errno value and back.
use usb_vhci_libusb.Prelude.{
  ℕ, ◌≡◌, ◌≢◌, sym, ◌⊎◌, inl, inr, Bool-cases, arith, refl, ◌∙◌, Bool, true, false, List, [], ◌∷◌,
  some, if◌then◌else◌, All, get_elem?, ℤ, neg, labels, mem, mem-false, switch_at, switch_default,
  switch_cases, Distinct-neg, apart-neg,
}
use usb_vhci_libusb.Errno.{Errno, IsErrno, status_codes}
use usb_vhci_libusb.Status.{
  success, pending, short_packet, error, canceled, timedout, device_disabled, device_disconnected,
  bit_stuff, crc, no_response, babble, stall, buffer_overrun, buffer_underrun,
  all_iso_packets_failed, to_errno_cases, to_errno, from_errno_cases, from_errno,
}

-- The status codes that have an errno value of their own.
abbrev pub plain_codes : List ℤ
plain_codes =
    success ∷ pending ∷ short_packet ∷ canceled ∷ timedout ∷ device_disabled ∷ device_disconnected
    ∷ bit_stuff ∷ crc ∷ no_response ∷ babble ∷ stall ∷ buffer_overrun ∷ buffer_underrun ∷ []

-- An isochronous URB keeps two more.
abbrev pub kept_codes : Bool → List ℤ
kept_codes true = error ∷ all_iso_packets_failed ∷ plain_codes
kept_codes false = plain_codes

-- What a status becomes.
abbrev pub settled : ℤ → Bool → ℤ
settled status iso = if mem status (kept_codes iso) then status else bit_stuff

module _ (e : Errno) (h : IsErrno e) where
  from_label :
      (iso : Bool) (i : ℕ) (l r : ℤ)
      → get_elem? (from_errno_cases e iso) i ≡ some (l, r)
      → from_errno e l iso ≡ r
  unfolding from_errno
  from_label iso i l r at =
      switch_at (from_errno_cases e iso) error i l r (Distinct-neg (status_codes e) h.1) at

  from_exdev : (iso : Bool) → from_errno e (neg e.exdev) iso ≡ error
  unfolding from_errno
  from_exdev iso =
      switch_default _ (from_errno_cases e iso) error (apart-neg e.exdev (status_codes e) h.0)

  abbrev Settles : Bool → ℤ → ℤ → Type 0
  Settles iso status errno = from_errno e errno iso ≡ settled status iso

  Settles-cases : (iso : Bool) → All (λ c. Settles iso c.0 c.1) (to_errno_cases e iso)
  Settles-cases true = (
    from_label true 0 _ _ refl,
    (
      from_label true 1 _ _ refl,
      (
        from_label true 2 _ _ refl,
        (
          from_exdev true,
          (
            from_label true 4 _ _ refl,
            (
              from_label true 5 _ _ refl,
              (
                from_label true 6 _ _ refl,
                (
                  from_label true 7 _ _ refl,
                  (
                    from_label true 8 _ _ refl,
                    (
                      from_label true 9 _ _ refl,
                      (
                        from_label true 10 _ _ refl,
                        (
                          from_label true 11 _ _ refl,
                          (
                            from_label true 12 _ _ refl,
                            (
                              from_label true 13 _ _ refl,
                              (from_label true 14 _ _ refl, (from_label true 15 _ _ refl, tt)),
                            ),
                          ),
                        ),
                      ),
                    ),
                  ),
                ),
              ),
            ),
          ),
        ),
      ),
    ),
  )
  Settles-cases false = (
    from_label false 0 _ _ refl,
    (
      from_label false 1 _ _ refl,
      (
        from_label false 2 _ _ refl,
        (
          from_label false 8 _ _ refl,
          (
            from_label false 4 _ _ refl,
            (
              from_label false 5 _ _ refl,
              (
                from_label false 6 _ _ refl,
                (
                  from_label false 7 _ _ refl,
                  (
                    from_label false 8 _ _ refl,
                    (
                      from_label false 9 _ _ refl,
                      (
                        from_label false 10 _ _ refl,
                        (
                          from_label false 11 _ _ refl,
                          (
                            from_label false 12 _ _ refl,
                            (
                              from_label false 13 _ _ refl,
                              (from_label false 14 _ _ refl, (from_label false 8 _ _ refl, tt)),
                            ),
                          ),
                        ),
                      ),
                    ),
                  ),
                ),
              ),
            ),
          ),
        ),
      ),
    ),
  )

  not_kept :
      (iso : Bool) (status : ℤ)
      → All (λ l. status ≢ l) (labels (to_errno_cases e iso))
      → mem status (kept_codes iso) ≡ false
  not_kept true status a = mem-false status (kept_codes true) assumption
  not_kept false status a = mem-false status (kept_codes false) assumption

  to_errno-bit_stuff : (iso : Bool) → to_errno e bit_stuff iso ≡ neg e.eproto
  unfolding to_errno
  to_errno-bit_stuff iso = refl

  lost_cases :
      (iso : Bool)
      → All (λ c. (c.1 ≡ neg e.eproto) ⊎ (mem c.0 (kept_codes iso) ≡ true)) (to_errno_cases e iso)
  lost_cases true = ground arith
  lost_cases false = ground arith

  -- A status that does not come back was sent as -EPROTO.
  lost :
      (status : ℤ) (iso : Bool)
      → (to_errno e status iso ≡ neg e.eproto) ⊎ (mem status (kept_codes iso) ≡ true)
  unfolding to_errno
  lost status iso =
      switch_cases (λ s r. (r ≡ neg e.eproto) ⊎ (mem s (kept_codes iso) ≡ true)) status
        (to_errno_cases e iso) (neg e.eproto) (lost_cases iso) (λ _. inl refl)

  pub from_errno-to_errno :
      (status : ℤ) (iso : Bool) → from_errno e (to_errno e status iso) iso ≡ settled status iso
  unfolding to_errno
  from_errno-to_errno status iso =
      switch_cases (Settles iso) status (to_errno_cases e iso) (neg e.eproto) (Settles-cases iso)
        λ a. from_label iso 8 _ _ refl ∙ rw (not_kept iso status a)

  -- The errno value of a status is a fixed point of the conversion back and forth: for every
  -- status, given distinct errno values, converting the errno value to a status and back gives the
  -- same errno value.
  to_errno-from_errno :
      (status : ℤ) (iso : Bool)
      → to_errno e (from_errno e (to_errno e status iso) iso) iso ≡ to_errno e status iso
  to_errno-from_errno status iso = rw (from_errno-to_errno status iso) (again (lost status iso))
    where
      again :
          (to_errno e status iso ≡ neg e.eproto) ⊎ (mem status (kept_codes iso) ≡ true)
          → to_errno e (settled status iso) iso ≡ to_errno e status iso
      again (inr kept) = rw kept
      again (inl sent) = elim (Bool-cases (mem status (kept_codes iso))) [
        | inl kept ↦ rw kept
        | inr other ↦ rw other (to_errno-bit_stuff iso ∙ sym sent)
      ]
