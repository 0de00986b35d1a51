-- ===== src/LocalHcd/Ports/Total.antt =====
-- Runs of a new local controller, from calls that meet what the library asks for.
use usb_vhci_libusb.Prelude.{
  ℕ, ◌+◌, ◌≡◌, refl, sym, ap, ◌∙◌, subst, true, false, arith, some, inl, inr, List, [], ◌∷◌, All,
}
use usb_vhci_libusb.Errno.{Errno}
use usb_vhci_libusb.Kernel.{Header}
use usb_vhci_libusb.Hcd.{
  cancel_process_urb_work, add_work_enqueued_callback, remove_work_enqueued_callback,
}
use usb_vhci_libusb.Hcd.Session.{hand-IsWell, finish-IsWell, Cancels-IsWell}
use usb_vhci_libusb.Hcd.Next.{next_work-Hands}
use usb_vhci_libusb.Hcd.Finish.{finish_work-Finishes}
use usb_vhci_libusb.Hcd.Cancel.{cancel_process_urb_work-cases}
use usb_vhci_libusb.LocalHcd.{LocalHcd, Memory, IsFresh, local}
use usb_vhci_libusb.LocalHcd.Laws.{Sound, local-IsVirtual}
use usb_vhci_libusb.LocalHcd.Ports.{
  PortsWell, Call, hand, finish, cancel, add_callback, remove_callback, port_event, urb_event,
  leaves, run, AllLeft, left_by,
}
use usb_vhci_libusb.LocalHcd.Ports.Runs.{leaves-PortsWell, IsNew-PortsWell}
use usb_vhci_libusb.LocalHcd.Lifetime.{Supplies}
use usb_vhci_libusb.LocalHcd.Lifetime.Ways.{IsNew}
use usb_vhci_libusb.Device.Open.{IocRegister}
use usb_vhci_libusb.Hcd.Thread.{Control}
use usb_vhci_libusb.LocalHcd.Account.{Balanced, owed, returned}
use usb_vhci_libusb.LocalHcd.Account.Clients.{hand-Balanced, finish-Balanced}
use usb_vhci_libusb.LocalHcd.Account.Cancels.{cancel-Balanced, repeated}
use usb_vhci_libusb.LocalHcd.Account.Calls.{Accounts, all_come_in, is_background}
use mathlib.Core.Option.{some-injective}
use usb_vhci_libusb.LocalHcd.Ports.Going.{Meets, Runs, GoesOn, port_event-GoesOn, urb_event-GoesOn}

module _ (e : Errno) (k : Header) (count_of : ℕ) where
  abbrev Ends : Call → LocalHcd → Type 0
  Ends = GoesOn e k count_of

  finish-GoesOn :
      (m : Memory) (w : ℕ) (h : LocalHcd) → Runs k h → Meets k (finish m w) h → Ends (finish m w) h
  finish-GoesOn m w h runs (fresh, malloc, inside) =
      let laws = local-IsVirtual e k m fresh malloc in
      let (t, calls, f) =
        finish_work-Finishes (Sound k) (local e k m) w h laws runs.owns runs.sound inside in
      (
        t,
        rw calls refl,
        finish-IsWell (Sound k) (λ v. Unit {0}) (local e k m) h t w laws inside calls runs,
        λ n. finish-Balanced e k m fresh malloc n w h t runs.owns runs.sound inside f,
        tt,
      )

  -- Whatever state the cancelation leaves, it keeps the accounts.
  cancel-Accounts :
      (m : Memory) (handle : ℕ) (h : LocalHcd)
      → Runs k h
      → IsFresh m
      → m.malloc ≡ true
      → (t : LocalHcd) → left_by (cancel_process_urb_work (local e k m) handle h) ≡ some t
      → Accounts (cancel m handle) h t
  cancel-Accounts m handle h runs fresh malloc t left n =
      let (u, left', balanced) =
        cancel-Balanced e k m fresh malloc n handle h runs.owns runs.sound in
      subst (Balanced n (repeated n handle h) h) (some-injective u t (sym left' ∙ left)) balanced

  cancel-GoesOn :
      (m : Memory) (handle : ℕ) (h : LocalHcd)
      → Runs k h
      → Meets k (cancel m handle) h
      → Ends (cancel m handle) h
  cancel-GoesOn m handle h runs (fresh, malloc) =
      let laws = local-IsVirtual e k m fresh malloc in
      let kept = cancel-Accounts m handle h runs fresh malloc in
      elim (cancel_process_urb_work-cases (Sound k) (local e k m) handle h laws runs.owns
        runs.sound) [
          | inl (w, found, (t, calls, c)) ↦ (
            t,
            rw calls refl,
            Cancels-IsWell (Sound k) (λ v. Unit {0}) (local e k m) h t w laws runs c,
            kept t (ap left_by calls),
            c.same_processing,
          )
          | inr (inl (w, absent, found, (t, grown, how))) ↦
              let left : left_by (cancel_process_urb_work (local e k m) handle h) ≡ some t =
                elim how [
                  | inl (call, calls) ↦ rw calls refl
                  | inr (x, call, calls) ↦ rw calls refl
                ] in
              (
                t,
                left,
                record { owns = grown.owns; sound = grown.sound },
                kept t left,
                grown.same_processing,
              )
          | inr (inr (absent, nowhere, calls)) ↦
              (h, rw calls refl, runs, kept h (ap left_by calls), refl)
        ]

  call-GoesOn : (c : Call) (h : LocalHcd) → PortsWell count_of h → Runs k h → Meets k c h → Ends c h
  unfolding add_work_enqueued_callback remove_work_enqueued_callback
  call-GoesOn (hand fits) h ports runs fit =
      let (r, t, calls, hands) = next_work-Hands h runs.owns in
      (
        t,
        rw (fit, calls) refl,
        hand-IsWell (Sound k) (λ v. Unit {0}) h t r calls runs,
        λ n. hand-Balanced n h t r hands,
        tt,
      )
  call-GoesOn (finish m w) h ports runs meets = finish-GoesOn m w h runs meets
  call-GoesOn (cancel m handle) h ports runs meets = cancel-GoesOn m handle h runs meets
  call-GoesOn (add_callback true c) h ports runs meets =
      (_, refl, record { owns = runs.owns; sound = runs.sound }, λ n. omega arith, tt)
  call-GoesOn (add_callback false c) h ports runs meets = (h, refl, runs, λ n. omega arith, tt)
  call-GoesOn (remove_callback c) h ports runs meets =
      (_, refl, record { owns = runs.owns; sound = runs.sound }, λ n. omega arith, tt)
  call-GoesOn (port_event index ps psw m) h ports runs meets =
      port_event-GoesOn e k count_of index ps psw m h ports runs meets
  call-GoesOn (urb_event r p u) h ports runs meets =
      urb_event-GoesOn e k count_of r p u h ports runs meets

  -- Each call meets what the library asks for in the state where it stands.
  abbrev pub AllMeet : List Call → LocalHcd → Type 0
  AllMeet [] h = Unit {0}
  AllMeet (c ∷ calls) h = Meets k c h × ((t : LocalHcd) → leaves e k c h ≡ some t → AllMeet calls t)

  -- The account of each URB from `h` to `t`.
  abbrev Settles : List Call → LocalHcd → LocalHcd → Type 0
  Settles calls h t = (n : ℕ) → Balanced n (all_come_in e k n calls h) h t

  run-GoesOn :
      (calls : List Call) (h : LocalHcd)
      → PortsWell count_of h
      → Runs k h
      → AllMeet calls h
      → (t : LocalHcd) × (run e k calls h ≡ some t)
        × Runs k t
        × Settles calls h t
        × (All (λ c. is_background c ≡ true) calls → t.processing ≡ h.processing)
  run-GoesOn [] h ports runs meets = (h, refl, runs, λ n. omega arith, λ all. refl)
  run-GoesOn (c ∷ calls) h ports runs meets =
      let (t, left, well, kept, same) = call-GoesOn c h ports runs meets.0 in
      let (last, ends, good, settled, later) =
        run-GoesOn calls t
          (subst (AllLeft (PortsWell count_of)) left (leaves-PortsWell e k count_of c h ports)) well
          (meets.1 t left) in
      (
        last,
        rw (left, run) ends,
        good,
        λ n. rw (left, all_come_in) (omega (arith, kept n, settled n)),
        λ all. later all.1 ∙ rw all.0 at same,
      )

  new-Runs :
      (sup : Supplies) (file : ℕ) (d : IocRegister) (new : LocalHcd) (c : Control)
      → IsNew sup count_of file d new c
      → Runs k new
  new-Runs sup file d new c is = record {
    owns = λ p. rw (is.empty.0, is.empty.1, is.no_works p) refl;
    sound = λ p o live. absurd (ground (arith, is.no_works p, live));
  }

  -- From the construction of a local controller on, no sequence of calls of clients, port events,
  -- URBs and cancelations of the kernel, in any order, meets undefined behaviour, and no pass of the
  -- background thread for a port event or a URB ends in an exception: every call returns, or throws
  -- to its caller, and afterwards the containers own the works and every URB in them can be given
  -- back. The calls must meet what the library asks for: that `malloc` and the container of
  -- `next_work` get memory, while `new` and the inbox may fail, that `new` answers unused addresses,
  -- that only works in hand are finished, that the kernel names existing ports, device addresses of
  -- seven bits and known URB types, and sends isochronous packets only with a buffer, that the
  -- arrays of a URB are made as long as it counts, and that FETCHDATA fails or answers the packets
  -- asked for.
  pub run_total :
      (sup : Supplies) (file : ℕ) (d : IocRegister) (new : LocalHcd) (c : Control)
      → IsNew sup count_of file d new c
      → (calls : List Call) → AllMeet calls new
      → (t : LocalHcd) × (run e k calls new ≡ some t) × Runs k t
  run_total sup file d new c is calls meets =
      let (t, ends, well, settled, same) =
        run-GoesOn calls new (IsNew-PortsWell sup count_of file d new c is)
          (new-Runs sup file d new c is) meets in
      (t, ends, well)

  -- No URB is lost. From the construction of a local controller on, under the conditions of
  -- `run_total`, after any sequence of calls, in any order, each URB has been given back or is owed
  -- still (it waits without being canceled, or the client holds it) as often, together, as passes of
  -- the background thread have queued it and cancelations have found it waiting and canceled
  -- already. So a URB that is queued once, and not canceled twice while it waits, is given back once
  -- or still owed, and never both.
  pub run_accounts :
      (sup : Supplies) (file : ℕ) (d : IocRegister) (new : LocalHcd) (c : Control)
      → IsNew sup count_of file d new c
      → (calls : List Call) → AllMeet calls new
      → (t : LocalHcd) × (run e k calls new ≡ some t)
        × ((n : ℕ) → returned n t + owed n t ≡ all_come_in e k n calls new)
  run_accounts sup file d new c is calls meets =
      let (t, ends, well, settled, same) =
        run-GoesOn calls new (IsNew-PortsWell sup count_of file d new c is)
          (new-Runs sup file d new c is) meets in
      (t, ends, λ n. omega (arith, settled n, starts n))
    where
      starts : (n : ℕ) → returned n new + owed n new ≡ 0
      starts n = rw (is.none_given, is.empty.0, is.empty.1) refl

  -- What the background thread makes of a new controller before a client calls it.
  pub run-background :
      (sup : Supplies) (file : ℕ) (d : IocRegister) (new : LocalHcd) (c : Control)
      → IsNew sup count_of file d new c
      → (calls : List Call) → AllMeet calls new
      → All (λ c. is_background c ≡ true) calls
      → (t : LocalHcd) × (run e k calls new ≡ some t) × Runs k t × (t.processing ≡ [])
  run-background sup file d new c is calls meets all =
      let (t, ends, well, settled, same) =
        run-GoesOn calls new (IsNew-PortsWell sup count_of file d new c is)
          (new-Runs sup file d new c is) meets in
      (t, ends, well, same all ∙ is.empty.1)
