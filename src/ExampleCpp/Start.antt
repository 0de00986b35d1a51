-- ===== src/ExampleCpp/Start.antt =====
-- `main` of examples/virtual_device.cpp up to its loop: the controller is made, and the callback is
-- registered while the controller's background thread runs already.
use usb_vhci_libusb.Prelude.{
  ℕ, ◌<◌, ◌≡◌, ◌≢◌, refl, sym, ap, ◌∙◌, subst, ◌⊎◌, inl, inr, Bool, true, false, arith, Bool-cases,
  Option, none, some, List, [], ◌∷◌, ◌++◌, All, length,
}
use mathlib.Core.Option.{some-injective}
use usb_vhci_libusb.Errno.{Errno}
use usb_vhci_libusb.Kernel.{Header}
use usb_vhci_libusb.Outcome.{done, throws, fault, Exception, bad_alloc}
use usb_vhci_libusb.Device.{answer}
use usb_vhci_libusb.Device.Open.{IocRegister, SystemCall}
use usb_vhci_libusb.Device.Open.Close.{Settles}
use usb_vhci_libusb.Hcd.{add_work_enqueued_callback}
use usb_vhci_libusb.Hcd.Owned.{pending}
use usb_vhci_libusb.Hcd.Thread.{Control}
use usb_vhci_libusb.LocalHcd.{LocalHcd}
use usb_vhci_libusb.LocalHcd.Lifetime.{Supplies, Created, created, not_created, construct_local}
use usb_vhci_libusb.LocalHcd.Lifetime.Ways.{
  IsNew, IsCreated, complete, unregistered, starved, threadless, no_ports,
}
use usb_vhci_libusb.LocalHcd.Lifetime.Creation.{construct_local-IsCreated}
use usb_vhci_libusb.LocalHcd.Account.Calls.{is_background}
use usb_vhci_libusb.LocalHcd.Ports.{Call, run}
use usb_vhci_libusb.LocalHcd.Ports.Going.{Runs}
use usb_vhci_libusb.LocalHcd.Ports.Total.{AllMeet, run-background}
use usb_vhci_libusb.ExampleCpp.Callbacks.{signal_callback, call_all, tells, tells-added}
use usb_vhci_libusb.ExampleCpp.{top, asleep}
use usb_vhci_libusb.ExampleCpp.System.{System, Reach}
use usb_vhci_libusb.ExampleCpp.Wakeup.{no_lost_wakeup}

-- The loop begins, or an exception ends the program.
pub data Begun : Type 0 where
  begun : System → Control → Begun
  ended : Exception → Begun

-- The variables before the loop.
abbrev pub before_loop : LocalHcd → System
before_loop h = record {
  hcd = h;
  shared = record { has_work = true; waiting_for_work = false; signalled = false };
  cont = false;
  pc = top;
}

-- `meanwhile` is what the background thread does between the two calls, `none` if it is terminated.
-- `fits` says whether there is memory for the callback.
unfoldable pub begin : ℕ → ℕ → Supplies → (LocalHcd → Option LocalHcd) → Bool → Option Begun
unfolding add_work_enqueued_callback
begin eintr fuel sup meanwhile fits = elim (construct_local eintr fuel sup 1) [
  | none ↦ none
  | some made ↦ elim made [
    | not_created x calls ↦ some (ended x)
    | created h control calls ↦ elim (meanwhile h) [
      | none ↦ none
      | some t ↦ elim (add_work_enqueued_callback fits signal_callback t) [
        | done _ u ↦ some (begun (before_loop u) control)
        | throws x u ↦ some (ended x)
        | fault ↦ none
      ]
    ]
  ]
]

module _ (e : Errno) (k : Header) where
  -- While the client sleeps and no signal is on its way, no work waits, it holds none, and a
  -- call of the registered callbacks, which the next work that is queued makes, signals it.
  abbrev pub NeverMisses : System → Type 0
  NeverMisses start =
      (s : System)
      → Reach e k start s
      → s.pc ≡ asleep
      → s.shared.signalled ≡ false
      → (pending s.hcd.store s.hcd.inbox ≡ [])
        × (s.hcd.processing ≡ [])
        × ((call_all true s.hcd.work_enqueued_callbacks s.shared).signalled ≡ true)

  abbrev pub Begins : Option Begun → Type 0
  Begins b =
      ((x : Exception) × (b ≡ some (ended x)))
      ⊎ ((start : System) × (c : Control) × (b ≡ some (begun start c)) × NeverMisses start)

  before_loop-NeverMisses :
      (h : LocalHcd)
      → Runs k h
      → h.processing ≡ []
      → tells h.work_enqueued_callbacks ≡ true
      → NeverMisses (before_loop h)
  before_loop-NeverMisses h runs none_held among s reached =
      no_lost_wakeup e k (before_loop h) s runs.owns runs.sound none_held refl among refl reached

  module _ (eintr fuel n : ℕ) (sup : Supplies) (settles : Settles eintr sup.sys.on_close n)
      (enough : n < fuel) (calls : List Call) (fits : Bool) where
    abbrev starts : Option Begun
    starts = begin eintr fuel sup (run e k calls) fits

    new-Begins :
        (file : ℕ) (d : IocRegister) (new : LocalHcd) (c : Control) (made : List SystemCall)
        → construct_local eintr fuel sup 1 ≡ some (created new c made)
        → IsNew sup 1 file d new c
        → AllMeet e k 1 calls new
        → All (λ x. is_background x ≡ true) calls
        → Begins starts
    unfolding begin
    new-Begins file d new c made constructs is meets all =
        let (t, ends, well, none_held) = run-background e k 1 sup file d new c is calls meets all in
        elim (Bool-cases fits) [
          | inl room ↦
              let after : LocalHcd = record t {
                work_enqueued_callbacks = t.work_enqueued_callbacks ++ signal_callback ∷ [];
              } in
              inr (
                before_loop after,
                c,
                rw (constructs, begin) (rw (ends, begin) (rw room refl)),
                before_loop-NeverMisses after (record { owns = well.owns; sound = well.sound })
                    none_held (tells-added t.work_enqueued_callbacks),
              )
          | inr none_left ↦
              inl (bad_alloc, rw (constructs, begin) (rw (ends, begin) (rw none_left refl)))
        ]

    failed-Begins :
        (x : Exception) (made : List SystemCall)
        → construct_local eintr fuel sup 1 ≡ some (not_created x made)
        → Begins starts
    unfolding begin
    failed-Begins x made constructs = inl (x, rw (constructs, begin) refl)

    -- The constructor or the registration of the callback throws, or the loop begins and the client
    -- misses no work.
    begin-Begins :
        ((fd : ℕ) (d : IocRegister) → sup.sys.on_register fd 1 ≡ answer d → 0 < length d.bus_id)
        → ((file : ℕ) (d : IocRegister) (new : LocalHcd) (c : Control)
            → IsNew sup 1 file d new c
            → AllMeet e k 1 calls new)
        → All (λ x. is_background x ≡ true) calls
        → Begins starts
    begin-Begins room meet all =
        let (r, made, is) = construct_local-IsCreated eintr fuel n sup 1 settles enough room in
        by_way r made is
      where
        by_way :
            (r : Created)
            → construct_local eintr fuel sup 1 ≡ some r
            → IsCreated sup 1 n r
            → Begins starts
        by_way _ made (no_ports none_asked) = failed-Begins _ _ made
        by_way _ made (unregistered r opened refused) = failed-Begins _ _ made
        by_way _ made (starved fd d opened given short) = failed-Begins _ _ made
        by_way _ made (threadless fd code d opened given refused) = failed-Begins _ _ made
        by_way _ made (complete fd d h c opened given is) =
            new-Begins fd d h c _ made is (meet fd d h c is) all

    -- The program never sleeps over a work, from the beginning of its loop on. Whatever the client
    -- and the background thread do then, while the client sleeps and no signal is on its way, no
    -- work waits that is not canceled, the client holds none, and the registered callbacks,
    -- which the next work that is queued calls, signal it. This holds although the background thread may have queued works before the
    -- callback was registered, in any calls of its own that meet what the library asks for. The last
    -- answer to `close` must not be EINTR and must come within the rounds, and the kernel's array
    -- for the bus id must not be empty.
    pub loop_never_misses :
        ((fd : ℕ) (d : IocRegister) → sup.sys.on_register fd 1 ≡ answer d → 0 < length d.bus_id)
        → ((file : ℕ) (d : IocRegister) (new : LocalHcd) (c : Control)
            → IsNew sup 1 file d new c
            → AllMeet e k 1 calls new)
        → All (λ x. is_background x ≡ true) calls
        → (start : System) (c : Control) → starts ≡ some (begun start c)
        → (s : System) → Reach e k start s
        → s.pc ≡ asleep
        → s.shared.signalled ≡ false
        → (pending s.hcd.store s.hcd.inbox ≡ [])
          × (s.hcd.processing ≡ [])
          × ((call_all true s.hcd.work_enqueued_callbacks s.shared).signalled ≡ true)
    loop_never_misses room meet all start c at_start = elim (begin-Begins room meet all) [
      | inl (x, throws_out) ↦ absurd (ended_ne (sym throws_out ∙ at_start))
      | inr (start', c', at_start', never) ↦
          subst NeverMisses (ap (system_or start) (some-injective _ _ (sym at_start' ∙ at_start)))
            never
    ]
      where
        ended_ne : {x : Exception} → some (ended x) ≢ some (begun start c)
        ended_ne same = ground (arith, same)

        system_or : System → Begun → System
        system_or other (begun t c) = t
        system_or other (ended x) = other
