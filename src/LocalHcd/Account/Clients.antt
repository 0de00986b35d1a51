-- ===== src/LocalHcd/Account/Clients.antt =====
-- What the calls of the clients do to the account of a URB.
use usb_vhci_libusb.Prelude.{
  ℕ, ◌+◌, ◌≤◌, ◌<◌, ◌≡◌, refl, sym, ap, ◌∙◌, arith, ==_refl, Bool, true, Option-cases,
  if◌then◌else◌, Option, none, some, List, [], ◌∷◌, ◌++◌, inl, inr, is_some,
}
use usb_vhci_libusb.Errno.{Errno}
use usb_vhci_libusb.Kernel.{Header}
use usb_vhci_libusb.Work.{
  Work, Kind, Store, put, held, process_urb_work, cancel_urb_work, port_stat_work,
}
use usb_vhci_libusb.Outcome.{done-state}
use usb_vhci_libusb.Hcd.{is_urb, remove}
use usb_vhci_libusb.Hcd.Owned.{
  count, Owns, pending, count-remove, count-pending, held-le-one, pending-append, pending-put,
}
use usb_vhci_libusb.Hcd.Enqueue.{queued}
use usb_vhci_libusb.Hcd.Next.{Hands, first, others, singleton}
use usb_vhci_libusb.LocalHcd.{Local, LocalHcd, Memory, IsFresh, local}
use usb_vhci_libusb.Hcd.Finish.{Finishes}
use usb_vhci_libusb.Hcd.Laws.{AllSound}
use usb_vhci_libusb.LocalHcd.Laws.{Sound, Gives, handles_of, finishing-Gives}
use usb_vhci_libusb.LocalHcd.Account.{
  for_urb, urbs_at, given, returned, Balanced, given-append, urbs_at-append, urbs_at-same,
  urbs_at-remove,
}

live_inside :
    (t : LocalHcd) (p : ℕ)
    → Owns t
    → 0 < count p t.inbox + count p t.processing
    → is_some (t.store p) ≡ true
live_inside t p own inside = ground (arith, own p, inside)

urbs_at-first :
    (n : ℕ) (store : Store) (xs : List ℕ)
    → urbs_at n store xs ≡ urbs_at n store (singleton (first xs)) + urbs_at n store (others xs)
urbs_at-first n store [] = refl
urbs_at-first n store (x ∷ xs) = omega arith

-- Handing out a work moves it from the waiting ones to those in hand.
pub hand-Balanced : (n : ℕ) (h t : LocalHcd) (r : Option ℕ × Bool) → Hands h r t → Balanced n 0 h t
hand-Balanced n h t r hands =
    omega
      (arith, ap (given n) kept, waits, holds, urbs_at-first n h.store (pending h.store h.inbox))
  where
    kept : t.derived.given_back ≡ h.derived.given_back
    kept = rw hands.same_derived refl

    same :
        (p : ℕ)
        → 0 < count p t.inbox + count p t.processing
        → for_urb n (t.store p) ≡ for_urb n (h.store p)
    same p inside = ap (for_urb n) (hands.same_objects p (live_inside t p hands.owns inside))

    waits :
        urbs_at n t.store (pending t.store t.inbox)
        ≡ urbs_at n h.store (others (pending h.store h.inbox))
    waits =
        urbs_at-same n h.store t.store (pending t.store t.inbox)
          (λ p inside. same p (omega (arith, inside, count-pending p t.store t.inbox)))
        ∙ ap (urbs_at n h.store) hands.remaining

    holds :
        urbs_at n t.store t.processing
        ≡ urbs_at n h.store h.processing
          + urbs_at n h.store (singleton (first (pending h.store h.inbox)))
    holds =
        urbs_at-same n h.store t.store t.processing (λ p inside. same p (omega (arith, inside)))
        ∙ ap (urbs_at n h.store) (hands.handed ∙ ap (λ r. h.processing ++ singleton r) hands.oldest)
        ∙ urbs_at-append n h.store h.processing _

for_urb-kind : (n : ℕ) (o : Work) → count n (handles_of o.kind) ≡ for_urb n (some o)
unfolding is_urb
for_urb-kind n o = by_kind o.kind refl
  where
    by_kind : (kind : Kind) → o.kind ≡ kind → count n (handles_of kind) ≡ for_urb n (some o)
    by_kind (process_urb_work urb) kd = rw (kd, is_urb) (ground arith)
    by_kind (cancel_urb_work handle) kd = rw (kd, is_urb) refl
    by_kind (port_stat_work stat flags) kd = rw (kd, is_urb) refl

-- What `finishing_work` gives back is the URB of the work.
pub Gives-returned :
    (n : ℕ) (o : Work) (h t : LocalHcd)
    → Gives o.kind h t
    → returned n t ≡ returned n h + for_urb n (some o)
Gives-returned n o h t (gbs, kept, same) = rw kept (
    given-append n h.derived.given_back gbs
    ∙ ap (λ c. returned n h + c) (ap (count n) same ∙ for_urb-kind n o))

-- An object elsewhere does not matter.
urbs_at-put :
    (n : ℕ) (store : Store) (q : ℕ) (v : Option Work) (xs : List ℕ)
    → count q xs ≡ 0
    → urbs_at n (put store q v) xs ≡ urbs_at n store xs
urbs_at-put n store q v xs apart =
    urbs_at-same n store (put store q v) xs (λ p inside. ground (arith, apart, inside))

-- Queueing a new work.
pub queued-Balanced :
    (n q : ℕ) (o : Work) (h : LocalHcd)
    → Owns h
    → h.store q ≡ none
    → Balanced n (if o.canceled then 0 else for_urb n (some o)) h (queued q o h)
queued-Balanced n q o h own fresh =
    let store = put h.store q (some o) in
    let unused : count q h.inbox + count q h.processing ≡ 0 = own q ∙ ap held fresh in
    let waits = pending-append store h.inbox (q ∷ []) in
    let old = pending-put h.store q (some o) h.inbox (omega (arith, unused)) in
    omega (
      arith,
      ap (urbs_at n store) waits,
      urbs_at-append n store (pending store h.inbox) (pending store (q ∷ [])),
      ap (urbs_at n store) old,
      urbs_at-put n h.store q (some o) (pending h.store h.inbox)
          (omega (arith, unused, count-pending q h.store h.inbox)),
      urbs_at-put n h.store q (some o) h.processing (omega (arith, unused)),
      new,
    )
  where
    new :
        urbs_at n (put h.store q (some o)) (pending (put h.store q (some o)) (q ∷ []))
        ≡ (if o.canceled then 0 else for_urb n (some o))
    new = ground (arith, ==_refl q)

module _ (e : Errno) (k : Header) (m : Memory) (fresh : IsFresh m) (mem : m.malloc ≡ true) where
  -- Finishing a work moves its URB from those in hand to those given back.
  pub finish-Balanced :
      (n w : ℕ) (h t : LocalHcd)
      → Owns h
      → AllSound (Sound k) h
      → 0 < count w h.processing
      → Finishes (local e k m) w h t
      → Balanced n 0 h t
  finish-Balanced n w h t own sound inside f = elim (Option-cases (h.store w)) [
    | inl gone ↦ absurd (ground (arith, own w, ap held gone))
    | inr (o, s) ↦
        let (u, runs, moved) = f.gives_back in
        let (v, calls, frames, gives) = finishing-Gives e k m w h o s (sound w o s) mem in
        let back = Gives-returned n o h v gives in
        let kept =
          ap (λ (d : Local). given n d.given_back)
            (moved ∙ ap (λ (x : LocalHcd). x.derived) (done-state tt tt u v (sym runs ∙ calls))) in
        omega (arith, back, kept, waits, holds, taken o s)
  ]
    where
      once : count w h.inbox + count w h.processing ≤ 1
      once = ground (arith, own w, held-le-one (h.store w))

      waits :
          urbs_at n t.store (pending t.store t.inbox) ≡ urbs_at n h.store (pending h.store h.inbox)
      waits =
          rw (f.store_after, f.same_inbox)
            (ap (urbs_at n (put h.store w none))
                (pending-put h.store w none h.inbox (omega (arith, once, inside)))
              ∙ urbs_at-put n h.store w none (pending h.store h.inbox)
                  (omega (arith, once, inside, count-pending w h.store h.inbox)))

      holds : urbs_at n t.store t.processing ≡ urbs_at n h.store (remove w h.processing)
      holds =
          rw (f.store_after, f.rest)
            (urbs_at-put n h.store w none (remove w h.processing)
              (ground (arith, count-remove w w h.processing, ==_refl w)))

      taken :
          (o : Work)
          → h.store w ≡ some o
          → urbs_at n h.store (remove w h.processing) + for_urb n (some o)
            ≡ urbs_at n h.store h.processing
      taken o s = ground (
        arith,
        inside,
        ap (for_urb n) s,
        urbs_at-remove n h.store w h.processing (omega (arith, once)),
      )
