-- ===== src/LocalHcd/Ports/Methods.antt =====
-- What the virtual methods of `local_hcd` and the cancelation keep of its state.
use usb_vhci_libusb.Prelude.{
  ℕ, ◌≡◌, inl, inr, refl, Bool, true, false, Bool-cases, Option-cases, none, some, [], ◌∷◌, ◌++◌,
}
use usb_vhci_libusb.Errno.{Errno}
use usb_vhci_libusb.Kernel.{Header}
use usb_vhci_libusb.Work.{
  Work, Kind, put, process_urb_work, cancel_urb_work, port_stat_work, new_cancel_urb_work,
}
use usb_vhci_libusb.Outcome.{Outcome, done, throws, fault, ◌>>◌, pure, modify, Leaves, Leaves->>=}
use usb_vhci_libusb.Hcd.{
  find_urb, cancel_at, cancel_process_urb_work, enqueue_work, on_work_enqueued,
}
use usb_vhci_libusb.Device.Giveback.{IocGiveback, giveback_request}
use usb_vhci_libusb.LocalHcd.{
  LocalHcd, Memory, local, canceling_work, finishing_work, report, enqueue_or_delete,
}
use usb_vhci_libusb.LocalHcd.Ports.{left_by, AllLeft}
use usb_vhci_libusb.LocalHcd.Ports.Passes.{Constructed-cases}
use usb_vhci_libusb.Hcd.Enqueue.{queued}

-- What these methods can do to the state, by the memory that they find.
pub record IsKept (m : Memory) (P : LocalHcd → Type 0) : Type 0 where
  pub given :
      (h : LocalHcd) (g : IocGiveback)
      → P h
      → P (record h {
        derived = record (h.derived) { given_back = h.derived.given_back ++ g ∷ [] };
      })
  pub marked : (h : LocalHcd) (w : ℕ) → P h → P (cancel_at w h)
  pub queues :
      (h : LocalHcd) (q : ℕ) (o : Work) → m.new_address h.store ≡ some q → P h → P (queued q o h)
  pub undone :
      (h : LocalHcd) (q : ℕ) (o : Work)
      → m.new_address h.store ≡ some q
      → P h
      → P (record h { store = put (put h.store q (some o)) q none })

pub Leaves-AllLeft :
    {A : Type 0} (P : LocalHcd → Type 0) (r : Outcome LocalHcd A)
    → Leaves P r
    → AllLeft P (left_by r)
Leaves-AllLeft P (done a t) p = p
Leaves-AllLeft P (throws e t) p = p
Leaves-AllLeft P fault p = tt

module _ (e : Errno) (k : Header) (m : Memory) (P : LocalHcd → Type 0) (kept : IsKept m P) where
  pub finishing_work-keeps : (w : ℕ) (h : LocalHcd) → P h → Leaves P (finishing_work e k m w h)
  unfolding finishing_work
  finishing_work-keeps w h well = elim (Option-cases (h.store w)) [
    | inl dangling ↦ rw (dangling, finishing_work) tt
    | inr (o, live) ↦ by_kind o live o.kind refl
  ]
    where
      by_kind :
          (o : Work)
          → h.store w ≡ some o
          → (kind : Kind) → o.kind ≡ kind
          → Leaves P (finishing_work e k m w h)
      by_kind o live (process_urb_work u) kd =
          elim (Option-cases (giveback_request e k m.malloc u)) [
            | inl bad ↦
                rw (live, finishing_work) (rw (kd, finishing_work) (rw (bad, finishing_work) tt))
            | inr (gb, sent) ↦
                rw (live, finishing_work)
                  (rw (kd, finishing_work) (rw (sent, finishing_work) (kept.given h gb well)))
          ]
      by_kind o live (cancel_urb_work handle) kd =
          rw (live, finishing_work) (rw (kd, finishing_work) well)
      by_kind o live (port_stat_work stat flags) kd =
          rw (live, finishing_work) (rw (kd, finishing_work) well)

  report-keeps : (port handle : ℕ) (h : LocalHcd) → P h → Leaves P (report m port handle h)
  unfolding report enqueue_or_delete enqueue_work on_work_enqueued
  report-keeps port handle h well = elim (Option-cases (m.new_address h.store)) [
    | inl starved ↦ rw (starved, report) well
    | inr (q, a) ↦ elim (Constructed-cases (new_cancel_urb_work port handle)) [
      | inl (x, c) ↦ rw (a, report) (rw (c, report) well)
      | inr (cw, c) ↦ elim (Bool-cases m.fits) [
        | inl room ↦ rw (a, report) (rw (c, report) (rw (room) (kept.queues h q cw a well)))
        | inr full ↦ rw (a, report) (rw (c, report) (rw (full) (kept.undone h q cw a well)))
      ]
    ]
  ]

  canceling_work-keeps :
      (w : ℕ) (in_progress : Bool) (h : LocalHcd)
      → P h
      → Leaves P (canceling_work m w in_progress h)
  unfolding canceling_work
  canceling_work-keeps w false h well = well
  canceling_work-keeps w true h well = elim (Option-cases (h.store w)) [
    | inl dangling ↦ rw (dangling, canceling_work) tt
    | inr (o, live) ↦ by_kind o live o.kind refl
  ]
    where
      by_kind :
          (o : Work)
          → h.store w ≡ some o
          → (kind : Kind) → o.kind ≡ kind
          → Leaves P (canceling_work m w true h)
      by_kind o live (process_urb_work u) kd =
          rw (live, canceling_work) (rw (kd, canceling_work) (report-keeps o.port u.handle h well))
      by_kind o live (cancel_urb_work handle) kd =
          rw (live, canceling_work) (rw (kd, canceling_work) well)
      by_kind o live (port_stat_work stat flags) kd =
          rw (live, canceling_work) (rw (kd, canceling_work) well)

  withdraw-keeps :
      (w : ℕ) (h : LocalHcd)
      → P h
      → Leaves P (
          (do modify (cancel_at w); canceling_work m w false; finishing_work e k m w; pure false) h)
  withdraw-keeps w h well =
      Leaves->>= P _
        (λ _ t holds.
          Leaves->>= P _ (λ _ u p. p) (finishing_work e k m w) t (finishing_work-keeps w t holds))
        (canceling_work m w false) (cancel_at w h)
        (canceling_work-keeps w false (cancel_at w h) (kept.marked h w well))

  pub cancel_process_urb_work-keeps :
      (handle : ℕ) (h : LocalHcd) → P h → Leaves P (cancel_process_urb_work (local e k m) handle h)
  unfolding cancel_process_urb_work
  cancel_process_urb_work-keeps handle h well =
      elim (Option-cases (find_urb h.store handle h.inbox)) [
        | inl dangling ↦ rw (dangling, cancel_process_urb_work) tt
        | inr (some w, waits) ↦ rw (waits, cancel_process_urb_work) (withdraw-keeps w h well)
        | inr (none, absent) ↦ elim (Option-cases (find_urb h.store handle h.processing)) [
          | inl dangling ↦
              rw (absent, cancel_process_urb_work) (rw (dangling, cancel_process_urb_work) tt)
          | inr (some w, busy) ↦
              rw (absent, cancel_process_urb_work)
                (rw (busy, cancel_process_urb_work)
                  (Leaves->>= P _ (λ _ u p. p) (canceling_work m w true) h
                    (canceling_work-keeps w true h well)))
          | inr (none, nowhere) ↦
              rw (absent, cancel_process_urb_work) (rw (nowhere, cancel_process_urb_work) well)
        ]
      ]
