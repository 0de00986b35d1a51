-- ===== src/Hcd/Enqueue.antt =====
-- Queueing a new work object: `enqueue_work` and then `on_work_enqueued`.
use usb_vhci_libusb.Prelude.{ℕ, ◌≡◌, refl, arith, ==_refl, true, none, some, [], ◌∷◌, ◌++◌}
use usb_vhci_libusb.Work.{Work, put}
use usb_vhci_libusb.Outcome.{done, ◌>>◌}
use usb_vhci_libusb.Hcd.{Hcd, enqueue_work, on_work_enqueued}
use usb_vhci_libusb.Hcd.Owned.{Owns, count-append}
use usb_vhci_libusb.Hcd.Laws.{AllSound, Grows, put_sound, sound_some}

module _ {D : Type 0} where
  -- `new`, before the object is queued.
  abbrev pub allocated : ℕ → Work → Hcd D → Hcd D
  allocated q o h = record h { store = put h.store q (some o) }

  abbrev pub queued : ℕ → Work → Hcd D → Hcd D
  queued q o h = record h {
    store = put h.store q (some o);
    inbox = h.inbox ++ q ∷ [];
    notified = h.notified ++ h.work_enqueued_callbacks;
  }

  pub enqueue_runs :
      (q : ℕ) (o : Work) (h : Hcd D)
      → (enqueue_work true q >> on_work_enqueued) (allocated q o h) ≡ done tt (queued q o h)
  unfolding enqueue_work on_work_enqueued
  enqueue_runs q o h = refl

  pub queued-Grows :
      (Sound : Work → Type 0) (q : ℕ) (o : Work) (h : Hcd D)
      → h.store q ≡ none
      → Owns h
      → AllSound Sound h
      → Sound o
      → Grows Sound h (queued q o h)
  queued-Grows Sound q o h fresh own all sound = record {
    owns = λ p. ground (arith, own p, own q, count-append p h.inbox (q ∷ []), ==_refl q);
    sound = put_sound Sound h.store q (some o) (sound_some Sound o sound) all;
    same_processing = refl;
    added = (q ∷ [], refl);
    same_objects = λ p live. ground arith;
  }
