-- ===== src/LocalHcd/Laws.antt =====
-- The virtual methods of `local_hcd` keep the contract that `hcd` relies on.
use usb_vhci_libusb.Prelude.{
  ℕ, ◌≡◌, refl, ◌⊎◌, inl, inr, true, false, arith, ◌==◌, Bool-cases, Option-cases, Option, none,
  some, map, sym, List, pos_part, ◌≤◌, [], ◌∷◌, ◌++◌, length,
}
use mathlib.Core.List.{append-nil}
use mathlib.Core.Path.{fun_ext}
use usb_vhci_libusb.Errno.{Errno}
use usb_vhci_libusb.Kernel.{Header}
use usb_vhci_libusb.Urb.{Urb}
use usb_vhci_libusb.Work.{
  Work, Kind, Store, put, process_urb_work, cancel_urb_work, port_stat_work, object, refused,
  new_cancel_urb_work,
}
use usb_vhci_libusb.Outcome.{done, throws, Exception, bad_alloc, invalid_argument}
use usb_vhci_libusb.Hcd.{enqueue_work, on_work_enqueued}
use usb_vhci_libusb.Hcd.Owned.{Owns}
use usb_vhci_libusb.Hcd.Enqueue.{queued, queued-Grows}
use usb_vhci_libusb.Hcd.Laws.{IsVirtual, Frames, Grows, AllSound}
use usb_vhci_libusb.Device.Giveback.{IocGiveback, pointee}
use usb_vhci_libusb.Device.Giveback.Laws.{giveback_request-total}
use usb_vhci_libusb.LocalHcd.{
  LocalHcd, Memory, IsFresh, canceling_work, finishing_work, local, report, enqueue_or_delete,
}

-- A URB has the packets that it counts.
abbrev pub PacketsFit : Urb → Type 0
PacketsFit urb = pos_part urb.packet_count ≤ length (pointee urb.iso_packets)

abbrev pub SoundKind : Header → Kind → Type 0
SoundKind k (process_urb_work urb) = PacketsFit urb
SoundKind k (cancel_urb_work handle) = Unit {0}
SoundKind k (port_stat_work stat flags) = Unit {0}

-- The URBs that a work gives back, by their handles.
abbrev pub handles_of : Kind → List ℕ
handles_of (process_urb_work urb) = urb.handle ∷ []
handles_of (cancel_urb_work handle) = []
handles_of (port_stat_work stat flags) = []

abbrev pub Gives : Kind → LocalHcd → LocalHcd → Type 0
Gives kind h t =
    (gbs : List IocGiveback) × (t.derived.given_back ≡ h.derived.given_back ++ gbs)
    × (map (λ gb. gb.handle) gbs ≡ handles_of kind)

-- What a work that is given back needs.
abbrev pub Sound : Header → Work → Type 0
Sound k o = SoundKind k o.kind

module _ (e : Errno) (k : Header) (m : Memory) where
  pub finishing-Gives :
      (w : ℕ) (h : LocalHcd) (o : Work)
      → h.store w ≡ some o
      → Sound k o
      → m.malloc ≡ true
      → (t : LocalHcd) × (finishing_work e k m w h ≡ done tt t) × Frames h t × Gives o.kind h t
  finishing-Gives w h o s sound mem = by_kind o.kind refl sound
    where
      by_kind :
          (kind : Kind)
          → o.kind ≡ kind
          → SoundKind k kind
          → (t : LocalHcd) × (finishing_work e k m w h ≡ done tt t) × Frames h t × Gives kind h t
      by_kind (process_urb_work urb) kd fit =
          let (gb, sends, same) = giveback_request-total e k urb fit in
          (
            record h {
              derived = record (h.derived) { given_back = h.derived.given_back ++ gb ∷ [] };
            },
            unfold finishing_work in
                rw (s, finishing_work)
                  (rw (kd, finishing_work) (rw (mem, finishing_work) (rw (sends, finishing_work)))),
            record {
              same_inbox = refl;
              same_processing = refl;
              same_store = refl;
              same_callbacks = refl;
            },
            (gb ∷ [], refl, rw same refl),
          )
      by_kind (cancel_urb_work handle) kd fit = (
        h,
        unfold finishing_work in rw (s, finishing_work) (rw (kd, finishing_work)),
        record {
          same_inbox = refl;
          same_processing = refl;
          same_store = refl;
          same_callbacks = refl;
        },
        ([], sym (append-nil h.derived.given_back), refl),
      )
      by_kind (port_stat_work stat flags) kd fit = (
        h,
        unfold finishing_work in rw (s, finishing_work) (rw (kd, finishing_work)),
        record {
          same_inbox = refl;
          same_processing = refl;
          same_store = refl;
          same_callbacks = refl;
        },
        ([], sym (append-nil h.derived.given_back), refl),
      )

  -- `delete cw` after a failed `push_back` leaves the store as it was.
  put-put : (st : Store) (q : ℕ) (v : Option Work) → st q ≡ none → put (put st q v) q none ≡ st
  put-put st q v fresh = fun_ext λ p. ground arith

  report_runs :
      (port handle : ℕ) (h : LocalHcd) (q : ℕ) (cw : Work)
      → m.new_address h.store ≡ some q
      → new_cancel_urb_work port handle ≡ object cw
      → m.fits ≡ true
      → report m port handle h ≡ done tt (queued q cw h)
  unfolding report enqueue_or_delete enqueue_work on_work_enqueued
  report_runs port handle h q cw a c f = rw (a, report) (rw (c, report) (rw f))

  report_fails :
      (port handle : ℕ) (h : LocalHcd) (q : ℕ) (cw : Work)
      → m.new_address h.store ≡ some q
      → new_cancel_urb_work port handle ≡ object cw
      → m.fits ≡ false
      → h.store q ≡ none
      → report m port handle h ≡ throws bad_alloc h
  unfolding report enqueue_or_delete enqueue_work on_work_enqueued
  report_fails port handle h q cw a c f fresh =
      rw (a, report) (rw (c, report) (rw f (rw (put-put h.store q (some cw) fresh))))

  unchanged : (h : LocalHcd) → Owns h → AllSound (Sound k) h → Grows (Sound k) h h
  unchanged h own sound = record {
    owns = own;
    sound = sound;
    same_processing = refl;
    added = ([], sym (append-nil h.inbox));
    same_objects = λ p _. refl;
  }

  new_cancel_cases :
      (port handle : ℕ)
      → ((cw : Work) × (new_cancel_urb_work port handle ≡ object cw)
          × (cw.kind ≡ cancel_urb_work handle))
        ⊎ ((x : Exception) × (new_cancel_urb_work port handle ≡ refused x))
  unfolding new_cancel_urb_work
  new_cancel_cases port handle = elim (Bool-cases (port == 0)) [
    | inl z ↦ inr (invalid_argument, rw z)
    | inr n ↦
        inl (record { port = port; canceled = false; kind = cancel_urb_work handle }, rw n, refl)
  ]

  -- A report queues a new `cancel_urb_work`, or throws and leaves the object as it was.
  pub report_cases :
      (port handle : ℕ) (h : LocalHcd)
      → IsFresh m
      → ((q : ℕ) × (cw : Work) × (h.store q ≡ none)
          × (cw.kind ≡ cancel_urb_work handle)
          × (report m port handle h ≡ done tt (queued q cw h)))
        ⊎ ((x : Exception) × (report m port handle h ≡ throws x h))
  report_cases port handle h fresh = elim (Option-cases (m.new_address h.store)) [
    | inl none_left ↦ inr (bad_alloc, unfold report in rw (none_left, report))
    | inr (q, a) ↦ elim (new_cancel_cases port handle) [
      | inr (x, c) ↦ inr (x, unfold report in rw (a, report) (rw (c, report)))
      | inl (cw, c, is_report) ↦ elim (Bool-cases m.fits) [
        | inl f ↦ inl (q, cw, fresh h.store q a, is_report, report_runs port handle h q cw a c f)
        | inr f ↦ inr (bad_alloc, report_fails port handle h q cw a c f (fresh h.store q a))
      ]
    ]
  ]

  report-Grows :
      (port handle : ℕ) (h : LocalHcd)
      → IsFresh m
      → Owns h
      → AllSound (Sound k) h
      → (t : LocalHcd) × Grows (Sound k) h t
        × ((report m port handle h ≡ done tt t)
            ⊎ ((x : Exception) × (report m port handle h ≡ throws x t)))
  report-Grows port handle h fresh own sound = elim (report_cases port handle h fresh) [
    | inl (q, cw, unused, is_report, runs) ↦
        (queued q cw h, queued-Grows (Sound k) q cw h unused own sound (rw is_report tt), inl runs)
    | inr (x, runs) ↦ (h, unchanged h own sound, inr (x, runs))
  ]

  -- The URB that is canceled while the client works on it is reported.
  pub canceling_work-report :
      (w : ℕ) (h : LocalHcd) (o : Work) (urb : Urb)
      → h.store w ≡ some o
      → o.kind ≡ process_urb_work urb
      → canceling_work m w true h ≡ report m o.port urb.handle h
  unfolding canceling_work
  canceling_work-report w h o urb s kd = rw (s, canceling_work) (rw (kd, canceling_work) refl)

  reporting-Grows :
      (w : ℕ) (h : LocalHcd) (o : Work)
      → h.store w ≡ some o
      → IsFresh m
      → Owns h
      → AllSound (Sound k) h
      → (t : LocalHcd) × Grows (Sound k) h t
        × ((canceling_work m w true h ≡ done tt t)
            ⊎ ((x : Exception) × (canceling_work m w true h ≡ throws x t)))
  reporting-Grows w h o s fresh own sound = by_kind o.kind refl
    where
      by_kind :
          (kind : Kind)
          → o.kind ≡ kind
          → (t : LocalHcd) × Grows (Sound k) h t
            × ((canceling_work m w true h ≡ done tt t)
                ⊎ ((x : Exception) × (canceling_work m w true h ≡ throws x t)))
      by_kind (process_urb_work urb) kd =
          rw (canceling_work-report w h o urb s kd)
            (report-Grows o.port urb.handle h fresh own sound)
      by_kind (cancel_urb_work handle) kd = (
        h,
        unchanged h own sound,
        inl (unfold canceling_work in rw (s, canceling_work) (rw (kd, canceling_work))),
      )
      by_kind (port_stat_work stat flags) kd = (
        h,
        unchanged h own sound,
        inl (unfold canceling_work in rw (s, canceling_work) (rw (kd, canceling_work))),
      )

  -- With memory for `malloc` and `new` answering unused addresses, `local_hcd` keeps the contract
  -- of the virtual methods: giving back and canceling return and leave the containers and the
  -- objects; the report of a canceled URB returns or throws, keeps the ownership, the works in
  -- processing and the objects that were there.
  pub local-IsVirtual : IsFresh m → m.malloc ≡ true → IsVirtual (Sound k) (local e k m)
  local-IsVirtual fresh mem = record {
    sound-cancel = λ o s. s;
    finishing = λ w h o s sound.
        let (t, runs, frames, gives) = finishing-Gives w h o s sound mem in (t, runs, frames);
    waiting = λ w h o s. (
      h,
      unfold canceling_work in refl,
      record {
        same_inbox = refl;
        same_processing = refl;
        same_store = refl;
        same_callbacks = refl;
      },
    );
    reporting = λ w h o s own sound. reporting-Grows w h o s fresh own sound;
  }
