-- ===== src/LocalHcd/Account/Cancels.antt =====
-- What canceling a URB does to its account.
use usb_vhci_libusb.Prelude.{
  ℕ, ◌+◌, ◌≤◌, ◌≡◌, refl, sym, ap, ◌∙◌, subst, arith, ==_refl, ◌==◌, Bool, true, false, ◌&&◌,
  if◌then◌else◌, Option, none, some, List, inl, inr,
}
use mathlib.Core.Option
use usb_vhci_libusb.Errno.{Errno}
use usb_vhci_libusb.Kernel.{Header}
use usb_vhci_libusb.Urb.{Urb}
use usb_vhci_libusb.Work.{Work, Kind, cancel, process_urb_work, cancel_urb_work, port_stat_work}
use usb_vhci_libusb.Outcome.{done, done-state}
use usb_vhci_libusb.Hcd.{is_urb, find_urb, remove, cancel_at, cancel_process_urb_work}
use usb_vhci_libusb.Hcd.Owned.{count, Owns, pending, held-le-one, count-pending}
use usb_vhci_libusb.Hcd.Laws.{AllSound}
use usb_vhci_libusb.Hcd.Enqueue.{queued}
use usb_vhci_libusb.Hcd.Cancel.{
  Found, Cancels, find_urb-total, cancel_waiting, cancels_in_progress, cancels_throwing,
  cancels_unknown,
}
use usb_vhci_libusb.LocalHcd.{LocalHcd, Memory, IsFresh, canceling_work, finishing_work, local}
use usb_vhci_libusb.LocalHcd.Laws.{
  Sound, finishing-Gives, report_cases, canceling_work-report, local-IsVirtual,
}
use usb_vhci_libusb.LocalHcd.Account.{
  for_urb, urbs_at, returned, Balanced, urbs_at-same, urbs_at-remove, count-pending_live,
}
use usb_vhci_libusb.LocalHcd.Account.Clients.{Gives-returned, queued-Balanced}
use usb_vhci_libusb.LocalHcd.Ports.{left_by}

-- Whether the first work for the URB that waits is canceled already.
abbrev pub is_marked : ℕ → LocalHcd → Bool
is_marked handle h = elim (find_urb h.store handle h.inbox) [
  | none ↦ false
  | some found ↦ elim found [
    | none ↦ false
    | some w ↦ elim (h.store w) [ none ↦ false | some o ↦ o.canceled ]
  ]
]

-- 1 for a cancelation of the URB `n` that finds it canceled already.
abbrev pub repeated : ℕ → ℕ → LocalHcd → ℕ
repeated n handle h = if handle == n && is_marked handle h then 1 else 0

is_urb-same : (n handle : ℕ) (o : Work) → is_urb handle o ≡ true → is_urb n o ≡ (handle == n)
unfolding is_urb
is_urb-same n handle o is_it = by_kind o.kind refl
  where
    by_kind : (kind : Kind) → o.kind ≡ kind → is_urb n o ≡ (handle == n)
    by_kind (process_urb_work urb) kd = rw (kd, is_urb) (ground (arith, rw (kd, is_urb) at is_it))
    by_kind (cancel_urb_work number) kd = absurd (ground (arith, rw (kd, is_urb) at is_it))
    by_kind (port_stat_work stat flags) kd = absurd (ground (arith, rw (kd, is_urb) at is_it))

is_urb-kind :
    (handle : ℕ) (o : Work) → is_urb handle o ≡ true → (urb : Urb) × (o.kind ≡ process_urb_work urb)
unfolding is_urb
is_urb-kind handle o is_it = by_kind o.kind refl
  where
    by_kind : (kind : Kind) → o.kind ≡ kind → (urb : Urb) × (o.kind ≡ process_urb_work urb)
    by_kind (process_urb_work urb) kd = (urb, kd)
    by_kind (cancel_urb_work number) kd = absurd (ground (arith, rw (kd, is_urb) at is_it))
    by_kind (port_stat_work stat flags) kd = absurd (ground (arith, rw (kd, is_urb) at is_it))

-- A report is for no URB.
for_urb-report :
    (n handle : ℕ) (cw : Work) → cw.kind ≡ cancel_urb_work handle → for_urb n (some cw) ≡ 0
unfolding is_urb
for_urb-report n handle cw kd = rw (kd, is_urb) refl

for_urb-cancel : (n : ℕ) (v : Option Work) → for_urb n (Option.map cancel v) ≡ for_urb n v
unfolding is_urb
for_urb-cancel n none = refl
for_urb-cancel n (some o) = refl

cancel_at-for_urb :
    (n w : ℕ) (h : LocalHcd) (p : ℕ) → for_urb n ((cancel_at w h).store p) ≡ for_urb n (h.store p)
cancel_at-for_urb n w h p = ground (arith, for_urb-cancel n (h.store w))

module _ (e : Errno) (k : Header) (m : Memory) (fresh : IsFresh m) (mem : m.malloc ≡ true) where
  -- A waiting URB that is not canceled moves to those given back; one that is canceled is given
  -- back once more.
  cancel_waiting-Balanced :
      (n handle w : ℕ) (h t : LocalHcd)
      → Owns h
      → AllSound (Sound k) h
      → find_urb h.store handle h.inbox ≡ some (some w)
      → Found h.store handle h.inbox w
      → Cancels (local e k m) w h t
      → Balanced n (repeated n handle h) h t
  unfolding canceling_work
  cancel_waiting-Balanced n handle w h t own sound runs f c =
      let o = f.object in
      let (u, first, second) = c.gives_back in
      let marked : (cancel_at w h).store w ≡ some (cancel o) =
        rw f.at_address (ground (arith, ==_refl w)) in
      let (v, calls, frames, gives) =
        finishing-Gives e k m w (cancel_at w h) (cancel o) marked (sound w o f.at_address) mem in
      let same : t ≡ v = done-state tt tt t v (
        sym (
          subst (λ (x : LocalHcd). finishing_work e k m w x ≡ done tt t)
            (sym (done-state tt tt (cancel_at w h) u first)) second)
        ∙ calls) in
      let back = Gives-returned n (cancel o) (cancel_at w h) v gives in
      omega (
        arith,
        ap (returned n) same,
        back,
        for_urb-cancel n (some o),
        waits,
        holds,
        taken,
        again,
        parts,
      )
    where
      same_urbs : (xs : List ℕ) → urbs_at n t.store xs ≡ urbs_at n h.store xs
      same_urbs xs =
          urbs_at-same n h.store t.store xs (λ p inside. rw c.marked (cancel_at-for_urb n w h p))

      once : count w h.inbox ≤ 1
      once = ground (arith, own w, held-le-one (h.store w))

      waits :
          urbs_at n t.store (pending t.store t.inbox)
          ≡ urbs_at n h.store (remove w (pending h.store h.inbox))
      waits = same_urbs (pending t.store t.inbox) ∙ ap (urbs_at n h.store) c.withdrawn

      holds : urbs_at n t.store t.processing ≡ urbs_at n h.store h.processing
      holds = same_urbs t.processing ∙ ap (urbs_at n h.store) c.same_processing

      taken :
          urbs_at n h.store (remove w (pending h.store h.inbox))
            + (if f.object.canceled then 0 else for_urb n (some f.object))
          ≡ urbs_at n h.store (pending h.store h.inbox)
      taken = ground (
        arith,
        f.inside,
        once,
        ap (for_urb n) f.at_address,
        count-pending_live h.store w f.object h.inbox f.at_address,
        urbs_at-remove n h.store w (pending h.store h.inbox)
            (omega (arith, once, count-pending w h.store h.inbox)),
      )

      parts :
          (if f.object.canceled then 0 else for_urb n (some f.object))
            + (if f.object.canceled then for_urb n (some f.object) else 0)
          ≡ for_urb n (some f.object)
      parts = ground arith

      again : repeated n handle h ≡ (if f.object.canceled then for_urb n (some f.object) else 0)
      again =
          rw (runs, is_marked)
            (rw (f.at_address, is_marked) (ground (arith, is_urb-same n handle f.object f.is_it)))

  none_marked :
      (n handle : ℕ) (h : LocalHcd)
      → find_urb h.store handle h.inbox ≡ some none
      → repeated n handle h ≡ 0
  none_marked n handle h nowhere = rw (nowhere, is_marked) (ground arith)

  -- A URB in the client's hands is reported and stays there.
  cancel_held-Balanced :
      (n handle w : ℕ) (h : LocalHcd)
      → Owns h
      → find_urb h.store handle h.inbox ≡ some none
      → find_urb h.store handle h.processing ≡ some (some w)
      → Found h.store handle h.processing w
      → (t : LocalHcd) × (left_by (cancel_process_urb_work (local e k m) handle h) ≡ some t)
        × Balanced n 0 h t
  cancel_held-Balanced n handle w h own nowhere runs f =
      let (urb, kd) = is_urb-kind handle f.object f.is_it in
      let reports = canceling_work-report e k m w h f.object urb f.at_address kd in
      elim (report_cases e k m f.object.port urb.handle h fresh) [
        | inl (q, cw, unused, is_report, calls) ↦ (
          queued q cw h,
          ap left_by (
              cancels_in_progress (local e k m) handle h (queued q cw h) w nowhere runs
                (reports ∙ calls)),
          ground (
            arith,
            queued-Balanced n q cw h own unused,
            for_urb-report n urb.handle cw is_report,
          ),
        )
        | inr (x, calls) ↦ (
          h,
          ap left_by (cancels_throwing (local e k m) handle h h w x nowhere runs (reports ∙ calls)),
          omega arith,
        )
      ]

  -- A cancelation keeps the account, unless it finds the URB waiting and canceled already: then the
  -- URB is given back once more.
  pub cancel-Balanced :
      (n handle : ℕ) (h : LocalHcd)
      → Owns h
      → AllSound (Sound k) h
      → (t : LocalHcd) × (left_by (cancel_process_urb_work (local e k m) handle h) ≡ some t)
        × Balanced n (repeated n handle h) h t
  cancel-Balanced n handle h own sound =
      elim (find_urb-total h.store handle h.inbox (λ p. ground (arith, own p))) [
        | inl (w, runs, found) ↦
            let (t, calls, c) =
              cancel_waiting (Sound k) (local e k m) handle h w (local-IsVirtual e k m fresh mem)
                own sound runs found in
            (t, ap left_by calls, cancel_waiting-Balanced n handle w h t own sound runs found c)
        | inr (nowhere, absent) ↦
            elim (find_urb-total h.store handle h.processing (λ p. ground (arith, own p))) [
              | inl (w, runs, found) ↦
                  let (t, calls, balanced) =
                    cancel_held-Balanced n handle w h own nowhere runs found in
                  (t, calls, rw (none_marked n handle h nowhere) balanced)
              | inr (unheld, absent') ↦ (
                h,
                ap left_by (cancels_unknown (local e k m) handle h nowhere unheld),
                omega (arith, none_marked n handle h nowhere),
              )
            ]
      ]
