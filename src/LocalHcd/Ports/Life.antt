-- ===== src/LocalHcd/Ports/Life.antt =====
-- From the construction of a local controller to its destruction: no work and no descriptor is
-- lost.
use usb_vhci_libusb.Prelude.{
  length, ℕ, suc, ◌≡◌, ◌<◌, refl, sym, ap, subst, ◌∙◌, true, false, arith, Option, Option-cases,
  inl, inr, none, some, List, [], ◌∷◌, ℤ, pos, replicate,
}
use mathlib.Core.Option.{some-injective}
use usb_vhci_libusb.Errno.{Errno}
use usb_vhci_libusb.Kernel.{Header}
use usb_vhci_libusb.Work.{Work, held}
use usb_vhci_libusb.Outcome.{done, Leaves, Leaves-then}
use usb_vhci_libusb.Device.{Reply}
use usb_vhci_libusb.Device.Open.{IocRegister, closes}
use usb_vhci_libusb.Device.Open.Close.{Settles, as_returned}
use usb_vhci_libusb.Hcd.{
  cancel_at, remove, delete_work, finish_work, add_work_enqueued_callback,
  remove_work_enqueued_callback,
}
use usb_vhci_libusb.Hcd.Owned.{count, Owns, count-remove, held-le-one}
use usb_vhci_libusb.Hcd.Enqueue.{queued, queued-Grows}
use usb_vhci_libusb.Hcd.Next.{next_work-Hands}
use usb_vhci_libusb.Hcd.Thread.{Control, no_thread}
use usb_vhci_libusb.LocalHcd.{Local, LocalHcd, Memory, IsFresh, local, finishing_work}
use usb_vhci_libusb.LocalHcd.Background.{or_new}
use usb_vhci_libusb.LocalHcd.Lifetime.{Supplies, destroy_local}
use usb_vhci_libusb.LocalHcd.Lifetime.Ways.{IsNew}
use usb_vhci_libusb.LocalHcd.Lifetime.Destruction.{destroy_local-undoes}
use usb_vhci_libusb.LocalHcd.Ports.{
  PortsWell, Call, hand, finish, cancel, add_callback, remove_callback, port_event, urb_event,
  leaves, run, AllLeft, AllLeft-map,
}
use usb_vhci_libusb.LocalHcd.Ports.Passes.{
  Queues, same, queues, port_stat_attempt-Queues, urb_attempt-Queues,
}
use usb_vhci_libusb.LocalHcd.Ports.Methods.{
  IsKept, Leaves-AllLeft, finishing_work-keeps, cancel_process_urb_work-keeps,
}
use usb_vhci_libusb.LocalHcd.Ports.Runs.{leaves-PortsWell, IsNew-PortsWell}

-- The containers own the works, and the descriptor is the one that was opened.
record Holds (file : ℤ) (h : LocalHcd) : Type 0 where
  owns : Owns h
  fd : h.derived.fd ≡ file

-- An object that a pass keeps for the next is not in the store.
abbrev pub IsApart : Option ℕ → LocalHcd → Type 0
IsApart kept h = (q : ℕ) → kept ≡ some q → h.store q ≡ none

-- What a call needs: memory for the container in `next_work`, a work in hand for `finish_work`, and
-- that `new` answers unused addresses.
abbrev pub Allowed : Call → LocalHcd → Type 0
Allowed (hand fits) h = fits ≡ true
Allowed (finish m w) h = IsFresh m × (0 < count w h.processing)
Allowed (cancel m handle) h = IsFresh m
Allowed (add_callback fits c) h = Unit {0}
Allowed (remove_callback c) h = Unit {0}
Allowed (port_event index ps psw m) h = IsFresh m × IsApart psw h
Allowed (urb_event r p u) h = IsFresh r.memory × IsApart p.puw h

module _ (e : Errno) (k : Header) where
  -- Each call is allowed in the state that it meets.
  abbrev pub AllAllowed : List Call → LocalHcd → Type 0
  AllAllowed [] h = Unit {0}
  AllAllowed (c ∷ calls) h =
      Allowed c h × ((t : LocalHcd) → leaves e k c h ≡ some t → AllAllowed calls t)

queued-Owns : (q : ℕ) (o : Work) (h : LocalHcd) → h.store q ≡ none → Owns h → Owns (queued q o h)
queued-Owns q o h fresh own =
    (queued-Grows (λ _. Unit {0}) q o h fresh own (λ p r live. tt) tt).owns

marked-Owns : (w : ℕ) (h : LocalHcd) → Owns h → Owns (cancel_at w h)
marked-Owns w h own = elim (Option-cases (h.store w)) [
  | inl gone ↦ λ p. rw gone (ground (arith, own p, ap held gone))
  | inr (o, live) ↦ λ p. rw live (ground (arith, own p, ap held live))
]

module _ (file : ℤ) (m : Memory) (fresh : IsFresh m) where
  Holds-IsKept : IsKept m (Holds file)
  Holds-IsKept = record {
    given = λ h g holds. record { owns = holds.owns; fd = holds.fd };
    marked = λ h w holds. record { owns = marked-Owns w h holds.owns; fd = holds.fd };
    queues = λ h q o a holds. record {
      owns = queued-Owns q o h (fresh h.store q a) holds.owns;
      fd = holds.fd;
    };
    undone = λ h q o a holds. record {
      owns = λ p. ground (arith, holds.owns p, fresh h.store q a);
      fd = holds.fd;
    };
  }

  -- While a work is in hand.
  abbrev InHand : ℕ → LocalHcd → Type 0
  InHand w h = Holds file h × (0 < count w h.processing)

  InHand-IsKept : (w : ℕ) → IsKept m (InHand w)
  InHand-IsKept w = record {
    given = λ h g holds. (Holds-IsKept.given h g holds.0, holds.1);
    marked = λ h p holds. (Holds-IsKept.marked h p holds.0, holds.1);
    queues = λ h q o a holds. (Holds-IsKept.queues h q o a holds.0, holds.1);
    undone = λ h q o a holds. (Holds-IsKept.undone h q o a holds.0, holds.1);
  }

module _ (file : ℤ) where
  delete_work-Holds :
      (w : ℕ) (h : LocalHcd)
      → Holds file h
      → 0 < count w h.processing
      → Leaves (Holds file) (delete_work w (record h { processing = remove w h.processing }))
  unfolding delete_work
  delete_work-Holds w h holds inside = elim (Option-cases (h.store w)) [
    | inl gone ↦ rw (gone, delete_work) tt
    | inr (o, live) ↦
        rw (live, delete_work)
          (record {
            owns = λ p. ground (
              arith,
              holds.owns p,
              holds.owns w,
              inside,
              count-remove p w h.processing,
              held-le-one (h.store w),
            );
            fd = holds.fd;
          })
  ]

  Queues-Holds :
      {kept : Option ℕ} {m : Memory} {h t : LocalHcd}
      → IsFresh m
      → IsApart kept h
      → Holds file h
      → Queues kept m h t
      → Holds file t
  Queues-Holds fresh apart holds same = holds
  Queues-Holds {kept} {m} {h} fresh apart holds (queues i q v info o a at_port good) =
      let new = queued-Owns q o h (unused kept apart a) holds.owns in
      record { owns = new; fd = holds.fd }
    where
      unused :
          (kept : Option ℕ)
          → IsApart kept h
          → or_new kept (m.new_address h.store) ≡ some q
          → h.store q ≡ none
      unused none apart a = fresh h.store q a
      unused (some p) apart a = apart q a

  module _ (e : Errno) (k : Header) where
    leaves-Holds :
        (c : Call) (h : LocalHcd)
        → (length h.derived.port_info ≡ h.port_count)
        → Allowed c h
        → Holds file h
        → AllLeft (Holds file) (leaves e k c h)
    unfolding finish_work add_work_enqueued_callback remove_work_enqueued_callback
    leaves-Holds (hand fits) h fit ok holds = rw ok (
        let (r, t, runs, it) = next_work-Hands h holds.owns in
        rw runs
          (record { owns = it.owns; fd = ap (λ (d : Local). d.fd) it.same_derived ∙ holds.fd }))
    leaves-Holds (finish m w) h fit ok holds =
        Leaves-AllLeft (Holds file) (finish_work (local e k m) w h) (
          Leaves-then (InHand file m ok.0 w) (Holds file) (λ t held_there. held_there.0) _
            (λ _ t held_there. delete_work-Holds w t held_there.0 held_there.1)
            (finishing_work e k m w) h
            (finishing_work-keeps e k m (InHand file m ok.0 w) (InHand-IsKept file m ok.0 w) w h
              (holds, ok.1)))
    leaves-Holds (cancel m handle) h fit ok holds =
        Leaves-AllLeft (Holds file) _
          (cancel_process_urb_work-keeps e k m (Holds file) (Holds-IsKept file m ok) handle h holds)
    leaves-Holds (add_callback true c) h fit ok holds = record { owns = holds.owns; fd = holds.fd }
    leaves-Holds (add_callback false c) h fit ok holds = holds
    leaves-Holds (remove_callback c) h fit ok holds = record { owns = holds.owns; fd = holds.fd }
    leaves-Holds (port_event index ps psw m) h fit ok holds =
        AllLeft-map (λ t. Queues-Holds ok.0 ok.1 holds) _
          (port_stat_attempt-Queues k index ps psw m h)
    leaves-Holds (urb_event r p u) h fit ok holds =
        AllLeft-map (λ t. Queues-Holds ok.0 ok.1 holds) _ (urb_attempt-Queues k r p u h fit)

    run-Holds :
        (count_of : ℕ) (calls : List Call) (h t : LocalHcd)
        → PortsWell count_of h
        → Holds file h
        → AllAllowed e k calls h
        → run e k calls h ≡ some t
        → Holds file t
    run-Holds count_of [] h t well holds ok runs =
        subst (Holds file) (some-injective h t runs) holds
    run-Holds count_of (c ∷ calls) h t well holds ok runs = elim (Option-cases (leaves e k c h)) [
      | inl gone ↦ absurd (ground (arith, rw (gone, run) at runs))
      | inr (u, left) ↦
          run-Holds count_of calls u t
            (subst (AllLeft (PortsWell count_of)) left (leaves-PortsWell e k count_of c h well))
            (subst (AllLeft (Holds file)) left
              (leaves-Holds c h (well.records ∙ sym well.ports) ok.0 holds))
            (ok.1 u left) (rw (left, run) at runs)
    ]

-- Nothing is lost over the life of a local controller. After its construction, and any allowed
-- calls of clients and passes of the background thread in any order, that do not terminate the
-- process, the destructor joins the thread, calls `close` on the descriptor that the constructor
-- opened, on no other, until it is not interrupted, and frees every work that was ever queued and
-- not freed before. The last answer to `close` is not EINTR and comes within the rounds.
pub life_frees :
    (e : Errno) (k : Header) (eintr fuel n : ℕ) (replies : ℕ → Reply (Unit {0}))
    → Settles eintr replies n
    → n < fuel
    → (sup : Supplies) (ports fd : ℕ) (d : IocRegister) (new : LocalHcd) (c : Control)
    → IsNew sup ports fd d new c
    → (calls : List Call) (t : LocalHcd) → AllAllowed e k calls new
    → run e k calls new ≡ some t
    → (u : LocalHcd) × (destroy_local eintr fuel replies t c
        ≡ some (as_returned (replies n) (replicate (suc n) (closes fd)), no_thread, done tt u))
      × ((p : ℕ) → u.store p ≡ none)
life_frees e k eintr fuel n replies settles enough sup ports fd d new c is calls t ok runs =
    let start : Holds (pos fd) new = record {
      owns = λ p. rw (is.empty.0, is.empty.1, is.no_works p) refl;
      fd = is.fd;
    } in
    let holds =
      run-Holds (pos fd) e k ports calls new t (IsNew-PortsWell sup ports fd d new c is) start ok
        runs in
    destroy_local-undoes eintr fuel n replies settles enough sup ports fd d new c t is
      (holds.fd ∙ sym is.fd) holds.owns
