-- ===== src/ExampleCpp.antt =====
-- examples/virtual_device.cpp: a program with one port, whose client thread sleeps until the
-- controller's background thread has queued work. What it prints is left out.
pub mod Answers
pub mod Reactions
pub mod Handles
pub mod Callbacks
pub mod System
pub mod ClientSteps
pub mod BackgroundSteps
pub mod Wakeup
pub mod Start
use usb_vhci_libusb.Prelude.{
  ℕ, ◌/◌, ◌%◌, ◌^◌, Bool, true, false, not, ◌&&◌, ◌||◌, ◌==◌, ltb, if◌then◌else◌, has, Option, none,
  some, List, [], ◌∷◌, pos,
}
use usb_vhci_libusb.Errno.{Errno}
use usb_vhci_libusb.Kernel.{Header}
use usb_vhci_libusb.Status
use usb_vhci_libusb.PortStat.{get_connection}
use usb_vhci_libusb.PortStat.Triggers.{trigger_resuming, trigger_reset, trigger_power_on}
use usb_vhci_libusb.Urb.{Urb, is_control}
use usb_vhci_libusb.Device.{Reply}
use usb_vhci_libusb.Device.Port.{
  IocPortStat, PortCall, connect, reset_done, resumed, data_rate_full,
}
use usb_vhci_libusb.Work.{Work, put, process_urb_work, cancel_urb_work, port_stat_work}
use usb_vhci_libusb.Outcome.{Outcome, done, throws, fault, Method, ◌>>=◌, ◌>>◌, pure}
use usb_vhci_libusb.Hcd.{Hcd, Virtual, finish_work}
use usb_vhci_libusb.LocalHcd.{Local, LocalHcd, get_port_stat, port_method}
use usb_vhci_libusb.Urb.Object.Members.{endpoint_number, ack, stall, set_buffer_actual}
use usb_vhci_libusb.Example.{copy_to}

abbrev pub dev_desc : List ℕ
dev_desc =
    18 ∷ 1 ∷ 0x00 ∷ 0x02 ∷ 0 ∷ 0 ∷ 0 ∷ 64 ∷ 0xad ∷ 0xde ∷ 0xef ∷ 0xbe ∷ 0x38 ∷ 0x11 ∷ 0 ∷ 1 ∷ 0 ∷ 1
    ∷ []

abbrev pub conf_desc : List ℕ
conf_desc = 9 ∷ 2 ∷ 18 ∷ 0 ∷ 1 ∷ 1 ∷ 0 ∷ 0x80 ∷ 0 ∷ 9 ∷ 4 ∷ 0 ∷ 0 ∷ 0 ∷ 0 ∷ 0 ∷ 0 ∷ 0 ∷ []

abbrev pub str0_desc : List ℕ
str0_desc = 4 ∷ 3 ∷ 0x09 ∷ 0x04 ∷ []

abbrev pub str1_desc : List ℕ
str1_desc =
    0x1a ∷ 0x03 ∷ 72 ∷ 0 ∷ 101 ∷ 0 ∷ 108 ∷ 0 ∷ 108 ∷ 0 ∷ 111 ∷ 0 ∷ 32 ∷ 0 ∷ 87 ∷ 0 ∷ 111 ∷ 0 ∷ 114
    ∷ 0 ∷ 108 ∷ 0 ∷ 100 ∷ 0 ∷ 33 ∷ 0 ∷ []

-- `std::copy(desc, desc + l, buffer)`, `set_buffer_actual(l)` and `ack()`; `none` is undefined
-- behaviour.
unfoldable pub copy_desc : ℕ → List ℕ → Urb → Option Urb
copy_desc size desc u =
    let l = if ltb size u.w_length then size else u.w_length in
    elim (copy_to l desc u.buffer) [
      | none ↦ none
      | some buffer ↦ some (ack (set_buffer_actual (pos l) (record u { buffer = buffer })))
    ]

-- The `switch` on the kind of descriptor, with the one on the string inside, which falls through.
unfoldable pub get_descriptor : Urb → Option Urb
unfolding copy_desc
get_descriptor u =
    if u.w_value / 2 ^ 8 == 1
    then copy_desc 18 dev_desc u
    else if u.w_value / 2 ^ 8 == 2
    then copy_desc 18 conf_desc u
    else if u.w_value / 2 ^ 8 == 3
    then elim (if u.w_value % 2 ^ 8 == 0
        then copy_desc 4 str0_desc u
        else if u.w_value % 2 ^ 8 == 1
        then copy_desc 0x1a str1_desc u
        else some (stall u)) [ none ↦ none | some v ↦ some (stall v) ]
    else some (stall u)

unfoldable pub process_urb : Header → Urb → Option Urb
unfolding get_descriptor
process_urb k u =
    if not (is_control k u.type)
    then some u
    else if not (endpoint_number u == 0)
    then some (stall u)
    else if u.bm_request_type == 0x00 && u.b_request == 5
    then some (ack u)
    else if u.bm_request_type == 0x00 && u.b_request == 9
    then some (ack u)
    else if u.bm_request_type == 0x00 && u.b_request == 11
    then some (ack u)
    else if u.bm_request_type == 0x80 && u.b_request == 6
    then get_descriptor u
    else some (stall u)

module _ (e : Errno) (k : Header) (reply : IocPortStat → Reply (Unit {0})) where
  abbrev pub call : PortCall → Method LocalHcd (Unit {0})
  call c = port_method e k reply 1 c >>= λ sent. pure tt

  -- A call that is made only if a device is connected.
  abbrev pub call_connected : PortCall → Method LocalHcd (Unit {0})
  call_connected c = get_port_stat 1 >>= λ stat. if get_connection stat then call c else pure tt

  abbrev pub on_trigger : ℕ → ℕ → Method LocalHcd (Unit {0}) → Method LocalHcd (Unit {0})
  on_trigger flags trigger m = if has flags trigger then m else pure tt

  -- What `main` does with a work before it finishes it; `false` if it returns 1. An exception of a
  -- port method is not caught.
  unfoldable pub react : ℕ → Work → Method LocalHcd Bool
  react w o = elim o.kind [
    | port_stat_work stat flags ↦ if not (o.port == 1) then pure false else (do
      on_trigger flags trigger_power_on (call (connect data_rate_full))
      on_trigger flags trigger_reset (call_connected (reset_done 1))
      on_trigger flags trigger_resuming (call_connected resumed)
      pure true)
    | process_urb_work urb ↦ λ h. elim (process_urb k urb) [
      | none ↦ fault
      | some v ↦
          done true
            (record h { store = put h.store w (some (record o { kind = process_urb_work v })) })
    ]
    | cancel_urb_work handle ↦ pure true
  ]

  -- The body of `if(work)`; `v` has the virtual methods of the controller.
  unfoldable pub handle : Virtual Local → ℕ → Method LocalHcd Bool
  handle v w h = elim (h.store w) [
    | none ↦ fault
    | some o ↦
        (react w o >>= λ goes_on. if goes_on then (finish_work v w >> pure true) else pure false) h
  ]

-- The variables under `has_work_mutex`, and whether `has_work_cv` has been signalled to the client
-- while it sleeps.
pub record Shared : Type 0 where
  pub has_work : Bool
  pub waiting_for_work : Bool
  pub signalled : Bool

-- `signal_work_enqueued`; `sleeps` says whether the client is in `pthread_cond_wait`, without which
-- the signal has no effect.
unfoldable pub signal_work_enqueued : Bool → Shared → Shared
signal_work_enqueued sleeps s =
    if s.waiting_for_work
    then record { has_work = true; waiting_for_work = false; signalled = sleeps || s.signalled }
    else record s { has_work = true }

-- Where the client is: at the head of the loop, asleep, before `next_work`, or with a work in hand.
pub data Pc : Type 0 where
  top asleep ready : Pc
  holds : ℕ → Pc

abbrev pub is_asleep : Pc → Bool
is_asleep asleep = true
is_asleep top = false
is_asleep ready = false
is_asleep (holds w) = false

-- The head of the loop, until the mutex is released or the client sleeps.
unfoldable pub look : Bool → Shared → Pc × Shared
look cont s =
    if cont
    then (ready, s)
    else if not s.has_work
    then (asleep, record s { waiting_for_work = true; signalled = false })
    else (ready, record s { has_work = false })

-- After `next_work`.
abbrev pub after : Option ℕ → Pc
after none = top
after (some w) = holds w
