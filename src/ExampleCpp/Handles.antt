-- ===== src/ExampleCpp/Handles.antt =====
-- Handling a work: the reaction and `finish_work`.
use usb_vhci_libusb.Prelude.{
  ℕ, ◌<◌, ◌≡◌, refl, sym, subst, ap, ◌∙◌, Bool, true, false, arith, Option-cases, none, some, inl,
  inr,
}
use usb_vhci_libusb.Errno.{Errno}
use usb_vhci_libusb.Kernel.{Header}
use usb_vhci_libusb.Urb.{Urb}
use usb_vhci_libusb.Device.{Reply}
use usb_vhci_libusb.Device.Port.{IocPortStat}
use usb_vhci_libusb.Work.{Work, Store, process_urb_work}
use usb_vhci_libusb.Outcome.{
  done, throws, fault, ◌>>=◌, ◌>>◌, pure, done-state, done-value, fault-done, throws-done, Ends,
  ends, returned, thrown, undefined_behaviour,
}
use usb_vhci_libusb.Hcd.{Virtual, finish_work, remove}
use usb_vhci_libusb.Hcd.Owned.{count, Owns, pending, pending-put, held-le-one}
use usb_vhci_libusb.Hcd.Laws.{IsVirtual, AllSound, put_sound, sound_some}
use usb_vhci_libusb.Hcd.Finish.{finish_work-Finishes}
use usb_vhci_libusb.LocalHcd.{Local, LocalHcd}
use usb_vhci_libusb.LocalHcd.Laws.{Sound, SoundKind, PacketsFit}
use usb_vhci_libusb.ExampleCpp.{react, handle}
use usb_vhci_libusb.ExampleCpp.Answers.{Keeps}
use usb_vhci_libusb.ExampleCpp.Reactions.{Reacts, same, answers, react-Reacts}

module _ (e : Errno) (k : Header) (reply : IocPortStat → Reply (Unit {0})) where
  -- What stays, and that no other object changes.
  pub record Answered (w : ℕ) (h u : LocalHcd) : Type 0 where
    pub owns : Owns u
    pub sound : AllSound (Sound k) u
    pub same_inbox : u.inbox ≡ h.inbox
    pub same_processing : u.processing ≡ h.processing
    pub same_callbacks : u.work_enqueued_callbacks ≡ h.work_enqueued_callbacks
    pub same_pending : pending u.store u.inbox ≡ pending h.store h.inbox

  Keeps-PacketsFit : (u v : Urb) → Keeps u v → PacketsFit u → PacketsFit v
  Keeps-PacketsFit u v keeps fits = rw (keeps.same_count, keeps.same_packets) fits

  answer_sound :
      (o : Work) (u v : Urb)
      → o.kind ≡ process_urb_work u
      → Keeps u v
      → Sound k o
      → Sound k (record o { kind = process_urb_work v })
  answer_sound o u v kd keeps sound = Keeps-PacketsFit u v keeps (subst (SoundKind k) kd sound)

  apart : (w : ℕ) (h : LocalHcd) → Owns h → 0 < count w h.processing → count w h.inbox ≡ 0
  apart w h own inside = ground (arith, own w, held-le-one (h.store w))

  Reacts-Answered :
      (w : ℕ) (o : Work) (h u : LocalHcd)
      → h.store w ≡ some o
      → Owns h
      → AllSound (Sound k) h
      → 0 < count w h.processing
      → Reacts e k reply w o h u
      → Answered w h u
  Reacts-Answered w o h u live own sound inside (same is_h) =
      subst (Answered w h) (sym is_h) (record {
        owns = own;
        sound = sound;
        same_inbox = refl;
        same_processing = refl;
        same_callbacks = refl;
        same_pending = refl;
      })
  Reacts-Answered w o h u live own sound inside (answers x v kd keeps is_h) =
      subst (Answered w h) (sym is_h) (record {
        owns = λ p. ground (arith, own p, live);
        sound =
            put_sound (Sound k) h.store w (some (record o { kind = process_urb_work v }))
              (sound_some (Sound k) (record o { kind = process_urb_work v })
                (answer_sound o x v kd keeps (sound w o live)))
              sound;
        same_inbox = refl;
        same_processing = refl;
        same_callbacks = refl;
        same_pending = pending-put h.store w _ h.inbox (apart w h own inside);
      })

  -- What handling the work `w` leaves.
  pub record Handles (w : ℕ) (h t : LocalHcd) : Type 0 where
    pub owns : Owns t
    pub sound : AllSound (Sound k) t
    pub same_inbox : t.inbox ≡ h.inbox
    pub rest : t.processing ≡ remove w h.processing
    pub same_callbacks : t.work_enqueued_callbacks ≡ h.work_enqueued_callbacks
    pub same_pending : pending t.store t.inbox ≡ pending h.store h.inbox

  finishing :
      (v : Virtual Local) (w : ℕ) (h u t : LocalHcd)
      → IsVirtual (Sound k) v
      → 0 < count w h.processing
      → Answered w h u
      → finish_work v w u ≡ done tt t
      → Handles w h t
  finishing v w h u t laws inside a runs =
      let there : 0 < count w u.processing = rw a.same_processing inside in
      let (t', calls, f) = finish_work-Finishes (Sound k) v w u laws a.owns a.sound there in
      subst (Handles w h) (done-state tt tt t' t (sym calls ∙ runs)) (record {
        owns = f.owns;
        sound = λ p o live.
            put_sound (Sound k) u.store w none (λ o e. absurd (ground arith)) a.sound p o
              (ap (λ (s : Store). s p) (sym f.store_after) ∙ live);
        same_inbox = f.same_inbox ∙ a.same_inbox;
        same_callbacks = f.same_callbacks ∙ a.same_callbacks;
        rest = f.rest ∙ ap (remove w) a.same_processing;
        same_pending =
            rw (f.store_after, f.same_inbox)
              (pending-put u.store w none u.inbox (apart w u a.owns there))
            ∙ a.same_pending;
      })

  live_at :
      (w : ℕ) (h : LocalHcd) → Owns h → 0 < count w h.processing → (o : Work) × (h.store w ≡ some o)
  live_at w h own inside = elim (Option-cases (h.store w)) [
    | inl gone ↦ absurd (ground (arith, own w))
    | inr found ↦ found
  ]

  -- A work that is handled to the end leaves its place, and all else of the queues stays.
  pub handle-Handles :
      (v : Virtual Local) (w : ℕ) (h t : LocalHcd)
      → IsVirtual (Sound k) v
      → Owns h
      → AllSound (Sound k) h
      → 0 < count w h.processing
      → handle e k reply v w h ≡ done true t
      → Handles w h t
  handle-Handles v w h t laws own sound inside runs =
      let (o, live) = live_at w h own inside in reacted o live (ends (react e k reply w o h))
    where
      finished :
          (u : LocalHcd)
          → Answered w h u
          → (finish_work v w >> pure true) u ≡ done true t
          → Handles w h t
      finished u a runs =
          let there : 0 < count w u.processing = rw a.same_processing inside in
          let (t', calls, f) = finish_work-Finishes (Sound k) v w u laws a.owns a.sound there in
          let both : (finish_work v w >> pure true) u ≡ done true t' =
            rw (calls, ◌>>=◌, ◌>>◌) refl in
          finishing v w h u t laws inside a
            (calls ∙ ap (λ (x : LocalHcd). done tt x) (done-state true true t' t (sym both ∙ runs)))

      reacted : (o : Work) → h.store w ≡ some o → Ends (react e k reply w o h) → Handles w h t
      reacted o live (returned true u r) =
          let calls : handle e k reply v w h ≡ (finish_work v w >> pure true) u =
            unfold handle in rw (live, handle) (rw (r, ◌>>=◌) refl) in
          finished u
            (Reacts-Answered w o h u live own sound inside (react-Reacts e k reply w o h u true r))
            (sym calls ∙ runs)
      reacted o live (returned false u r) =
          let calls : handle e k reply v w h ≡ done false u =
            unfold handle in rw (live, handle) (rw (r, ◌>>=◌) refl) in
          let absurdity : ◌≡◌ {A = Bool} false true =
            done-value false true u t (sym calls ∙ runs) in
          absurd (ground (arith, absurdity))
      reacted o live (thrown x u r) =
          let calls : handle e k reply v w h ≡ throws x u =
            unfold handle in rw (live, handle) (rw (r, ◌>>=◌) refl) in
          absurd (throws-done true t u x (sym calls ∙ runs))
      reacted o live (undefined_behaviour r) =
          let calls : handle e k reply v w h ≡ fault =
            unfold handle in rw (live, handle) (rw (r, ◌>>=◌) refl) in
          absurd (fault-done true t (sym calls ∙ runs))
