-- ===== src/Hcd/Session.antt =====
-- Sessions: what a controller goes through from its construction to its destruction, when its
-- threads call its methods in any order.
use usb_vhci_libusb.Prelude.{
  ℕ, ◌<◌, ◌≡◌, ◌≢◌, refl, sym, subst, ap, ◌∙◌, Bool, true, false, arith, ◌==◌, Option, none, some,
  [], ◌∷◌, ◌++◌, inl, inr, Option-cases, Bool-cases,
}
use mathlib.Core.Option
use mathlib.Core.Option.{some-injective}
use usb_vhci_libusb.Work.{Work, Store, put, cancel}
use usb_vhci_libusb.Outcome.{
  Outcome, done, throws, fault, Exception, bad_alloc, ◌>>◌, done-state, throws-state,
}
use usb_vhci_libusb.Hcd.{
  Hcd, Virtual, Callback, construct, enqueue_work, on_work_enqueued, next_work, finish_work,
  destroy, cancel_process_urb_work, cancel_at, add_work_enqueued_callback,
  remove_work_enqueued_callback,
}
use usb_vhci_libusb.Hcd.Owned.{count, Owns}
use usb_vhci_libusb.Hcd.Laws.{IsVirtual, AllSound, put_sound}
use usb_vhci_libusb.Hcd.Next.{next_work-Hands, next_work_returns}
use usb_vhci_libusb.Hcd.Finish.{finish_work-Finishes, destroy_frees}
use usb_vhci_libusb.Hcd.Cancel.{Cancels, cancel_process_urb_work-cases}
use usb_vhci_libusb.Hcd.Enqueue.{allocated, enqueue_runs, queued-Grows}

none-some : (o : Work) → ◌≢◌ {A = Option Work} none (some o)
none-some o e = ground arith

-- Deleting an object that has just been allocated.
pub put_back :
    (store : Store) (q : ℕ) (v : Option Work) (p : ℕ)
    → store q ≡ none
    → put (put store q v) q none p ≡ store p
put_back store q v p fresh = ground (arith, fresh)

-- `Methods` says which virtual methods a call can meet: those of `local_hcd` depend on the memory
-- that is left at the time.
module _ {D : Type 0} (Sound : Work → Type 0) (Methods : Virtual D → Type 0) where
  -- One call. A client finishes only works that it was handed, and the derived class queues only
  -- new objects that it can give back; an object that could not be queued is not in the store
  -- afterwards. The containers may fail to grow, but a call of `next_work` that throws is no step:
  -- it loses the work that it has taken from the inbox.
  pub data Step : Hcd D → Hcd D → Type 0 where
    queue :
        {h t : Hcd D} (q : ℕ) (o : Work)
        → h.store q ≡ none
        → Sound o
        → (enqueue_work true q >> on_work_enqueued) (allocated q o h) ≡ done tt t
        → Step h t
    queue_fails :
        {h t : Hcd D} (q : ℕ) (o : Work) (x : Exception)
        → h.store q ≡ none
        → enqueue_work false q (allocated q o h) ≡ throws x t
        → Step h (record t { store = put t.store q none })
    hand :
        {h t : Hcd D} (fits : Bool) (r : Option ℕ × Bool) → next_work fits h ≡ done r t → Step h t
    finish :
        {h t : Hcd D} (v : Virtual D) (w : ℕ)
        → Methods v
        → 0 < count w h.processing
        → finish_work v w h ≡ done tt t
        → Step h t
    cancel_urb :
        {h t : Hcd D} (v : Virtual D) (handle : ℕ) (in_progress : Bool)
        → Methods v
        → cancel_process_urb_work v handle h ≡ done in_progress t
        → Step h t
    cancel_throws :
        {h t : Hcd D} (v : Virtual D) (handle : ℕ) (e : Exception)
        → Methods v
        → cancel_process_urb_work v handle h ≡ throws e t
        → Step h t
    add_callback :
        {h t : Hcd D} (fits : Bool) (c : Callback)
        → add_work_enqueued_callback fits c h ≡ done tt t
        → Step h t
    add_callback_fails :
        {h t : Hcd D} (c : Callback) (x : Exception)
        → add_work_enqueued_callback false c h ≡ throws x t
        → Step h t
    remove_callback : (h : Hcd D) (c : Callback) → Step h (remove_work_enqueued_callback c h)

  pub data Reach (s : Hcd D) : Hcd D → Type 0 where
    here : Reach s s
    next : {t u : Hcd D} → Reach s t → Step t u → Reach s u

  -- The invariant.
  pub record IsWell (h : Hcd D) : Type 0 where
    pub owns : Owns h
    pub sound : AllSound Sound h

  abbrev initial : ℕ → D → Hcd D
  initial ports d = record {
    port_count = ports;
    work_enqueued_callbacks = [];
    inbox = [];
    processing = [];
    store = λ p. none;
    notified = [];
    derived = d;
  }

  initial-IsWell : (ports : ℕ) (d : D) → IsWell (initial ports d)
  initial-IsWell ports d = record {
    owns = λ p. refl;
    sound = λ p o live. absurd (none-some o live);
  }

  pub construct-IsWell : (ports : ℕ) (d : D) (h : Hcd D) → construct ports d ≡ some h → IsWell h
  unfolding construct
  construct-IsWell ports d h e = elim (Bool-cases (ports == 0)) [
    | inl z ↦ absurd (ground arith)
    | inr n ↦ made (rw n at e)
  ]
    where
      made : some (initial ports d) ≡ some h → IsWell h
      made e = subst IsWell (some-injective (initial ports d) h e) (initial-IsWell ports d)

  queue-IsWell :
      (h t : Hcd D) (q : ℕ) (o : Work)
      → h.store q ≡ none
      → Sound o
      → (enqueue_work true q >> on_work_enqueued) (allocated q o h) ≡ done tt t
      → IsWell h
      → IsWell t
  queue-IsWell h t q o fresh good runs well =
      let grown = queued-Grows Sound q o h fresh well.owns well.sound good in
      subst IsWell (done-state tt tt _ t (sym (enqueue_runs q o h) ∙ runs))
        (record { owns = grown.owns; sound = grown.sound })

  pub hand-IsWell :
      (h t : Hcd D) (r : Option ℕ × Bool) → next_work true h ≡ done r t → IsWell h → IsWell t
  hand-IsWell h t r runs well =
      let (r', u, calls, hands) = next_work-Hands h well.owns in
      subst IsWell (done-state r' r u t (sym calls ∙ runs)) (record {
        owns = hands.owns;
        sound = λ p o live. well.sound p o (sym (hands.same_objects p (rw live refl)) ∙ live);
      })

  pub finish-IsWell :
      (v : Virtual D) (h t : Hcd D) (w : ℕ)
      → IsVirtual Sound v
      → 0 < count w h.processing
      → finish_work v w h ≡ done tt t
      → IsWell h
      → IsWell t
  finish-IsWell v h t w laws inside runs well =
      let (u, calls, f) = finish_work-Finishes Sound v w h laws well.owns well.sound inside in
      subst IsWell (done-state tt tt u t (sym calls ∙ runs)) (record {
        owns = f.owns;
        sound = λ p o live.
            put_sound Sound h.store w none (λ o e. absurd (none-some o e)) well.sound p o
              (ap (λ (s : Store). s p) (sym f.store_after) ∙ live);
      })

  pub Cancels-IsWell :
      (v : Virtual D) (h t : Hcd D) (w : ℕ)
      → IsVirtual Sound v
      → IsWell h
      → Cancels v w h t
      → IsWell t
  Cancels-IsWell v h t w laws well c = record {
    owns = c.owns;
    sound = λ p o live. marked p o (ap (λ (s : Store). s p) (sym c.marked) ∙ live);
  }
    where
      marked : (p : ℕ) (o : Work) → (cancel_at w h).store p ≡ some o → Sound o
      marked = put_sound Sound h.store w (Option.map cancel (h.store w)) canceled well.sound
        where
          canceled : (o : Work) → Option.map cancel (h.store w) ≡ some o → Sound o
          canceled o e = elim (Option-cases (h.store w)) [
            | inl gone ↦ absurd (none-some o (sym (rw gone refl) ∙ e))
            | inr (x, s) ↦
                subst Sound (some-injective (cancel x) o (sym (rw s refl) ∙ e))
                  (laws.sound-cancel x (well.sound w x s))
          ]

  data_of : Outcome (Hcd D) Bool → Option (Hcd D)
  data_of (done a t) = some t
  data_of (throws e t) = some t
  data_of fault = none

  cancel-IsWell :
      (v : Virtual D) (h t : Hcd D) (handle : ℕ) (r : Outcome (Hcd D) Bool)
      → IsVirtual Sound v
      → cancel_process_urb_work v handle h ≡ r
      → data_of r ≡ some t
      → IsWell h
      → IsWell t
  unfolding data_of
  cancel-IsWell v h t handle r laws runs leaves well =
      elim (cancel_process_urb_work-cases Sound v handle h laws well.owns well.sound) [
        | inl (w, found, (u, calls, c)) ↦
            here_is u (ap data_of calls) (Cancels-IsWell v h u w laws well c)
        | inr (inl (w, absent, found, (u, grown, how))) ↦
            here_is u
              (elim how [
                | inl (call, calls) ↦ ap data_of calls
                | inr (e, call, calls) ↦ ap data_of calls
              ])
              (record { owns = grown.owns; sound = grown.sound })
        | inr (inr (absent, nowhere, calls)) ↦ here_is h (ap data_of calls) well
      ]
    where
      here_is :
          (u : Hcd D) → data_of (cancel_process_urb_work v handle h) ≡ some u → IsWell u → IsWell t
      here_is u left good =
          subst IsWell (some-injective u t (sym left ∙ ap data_of runs ∙ leaves)) good

  abbrev with_callback : Hcd D → Callback → Hcd D
  with_callback h c = record h { work_enqueued_callbacks = h.work_enqueued_callbacks ++ c ∷ [] }

  queue_fails-IsWell :
      (h : Hcd D) (q : ℕ) (o : Work)
      → h.store q ≡ none
      → IsWell h
      → IsWell (record h { store = put (put h.store q (some o)) q none })
  queue_fails-IsWell h q o fresh well = record {
    owns = λ p. ground (arith, well.owns p, fresh);
    sound = λ p w live. well.sound p w (sym (put_back h.store q (some o) p fresh) ∙ live);
  }

  pub Step-IsWell :
      {h t : Hcd D}
      → ((v : Virtual D) → Methods v → IsVirtual Sound v)
      → Step h t
      → IsWell h
      → IsWell t
  unfolding data_of enqueue_work add_work_enqueued_callback remove_work_enqueued_callback
  Step-IsWell {h} {t} laws (queue q o fresh good runs) well =
      queue-IsWell h t q o fresh good runs well
  Step-IsWell {h} laws (queue_fails {t = t} q o x fresh runs) well =
      subst (λ (u : Hcd D). IsWell (record u { store = put u.store q none }))
        (throws-state bad_alloc x (allocated q o h) t runs) (queue_fails-IsWell h q o fresh well)
  Step-IsWell {h} {t} laws (hand fits r runs) well =
      hand-IsWell h t r (next_work_returns fits h t r runs) well
  Step-IsWell {h} {t} laws (finish v w meets inside runs) well =
      finish-IsWell v h t w (laws v meets) inside runs well
  Step-IsWell {h} {t} laws (cancel_urb v handle b meets runs) well =
      cancel-IsWell v h t handle (done b t) (laws v meets) runs refl well
  Step-IsWell {h} {t} laws (cancel_throws v handle e meets runs) well =
      cancel-IsWell v h t handle (throws e t) (laws v meets) runs refl well
  Step-IsWell {h} {t} laws (add_callback true c runs) well =
      subst IsWell (done-state tt tt (with_callback h c) t runs)
        (record { owns = well.owns; sound = well.sound })
  Step-IsWell {h} {t} laws (add_callback false c runs) well = absurd (ground arith)
  Step-IsWell {h} {t} laws (add_callback_fails c x runs) well =
      subst IsWell (throws-state bad_alloc x h t runs) well
  Step-IsWell laws (remove_callback h c) well = record { owns = well.owns; sound = well.sound }

  pub Reach-IsWell :
      {s t : Hcd D}
      → ((v : Virtual D) → Methods v → IsVirtual Sound v)
      → IsWell s
      → Reach s t
      → IsWell t
  Reach-IsWell laws well here = well
  Reach-IsWell laws well (next r st) = Step-IsWell laws st (Reach-IsWell laws well r)

  -- Whatever calls follow a controller's construction, by virtual methods that keep their laws: the
  -- inbox and the callbacks may fail to grow, but no call of `next_work` throws, only works in hand
  -- are finished, and only new objects are queued. In every state reached, the containers own the
  -- works and every work can be given back; `next_work` returns, if it has memory; and the destructor
  -- returns and frees every work.
  pub session_safe :
      (ports : ℕ) (d : D) (h t : Hcd D)
      → ((v : Virtual D) → Methods v → IsVirtual Sound v)
      → construct ports d ≡ some h
      → Reach h t
      → IsWell t
        × ((r : Option ℕ × Bool) × (u : Hcd D) × (next_work true t ≡ done r u))
        × ((u : Hcd D) × (destroy t ≡ done tt u) × ((p : ℕ) → u.store p ≡ none))
  session_safe ports d h t laws made reached =
      let well = Reach-IsWell laws (construct-IsWell ports d h made) reached in
      let (r, u, runs, hands) = next_work-Hands t well.owns in
      (well, (r, u, runs), destroy_frees t well.owns)
