-- ===== src/ExampleCpp/Reactions.antt =====
-- What handling a work does to the controller.
use usb_vhci_libusb.Prelude.{
  ℕ, ◌-◌, ◌≡◌, refl, sym, ◌∙◌, inl, inr, Bool, true, false, ◌==◌, ltb, has, if◌then◌else◌,
  Bool-cases, Option-cases, some, get_elem?, ◌==ℤ◌,
}
use usb_vhci_libusb.Errno.{Errno}
use usb_vhci_libusb.Kernel.{Header}
use usb_vhci_libusb.Urb.{Urb}
use usb_vhci_libusb.Device.{Reply, minus_one}
use usb_vhci_libusb.Device.Port.{
  IocPortStat, PortCall, port_call, connect, reset_done, resumed, data_rate_full,
}
use usb_vhci_libusb.PortStat.{get_connection}
use usb_vhci_libusb.PortStat.Triggers.{trigger_power_on, trigger_reset, trigger_resuming}
use usb_vhci_libusb.Work.{Work, Kind, put, process_urb_work, cancel_urb_work, port_stat_work}
use usb_vhci_libusb.Outcome.{
  done, fault, Method, ◌>>◌, pure, Stays, Stays->>=, Stays-done, done-state, fault-done,
}
use usb_vhci_libusb.LocalHcd.{LocalHcd, get_port_stat, port_method}
use usb_vhci_libusb.ExampleCpp.{process_urb, call, call_connected, on_trigger, react}
use usb_vhci_libusb.ExampleCpp.Answers.{Keeps, process_urb-Keeps}

pure-Stays : {S A : Type 0} (a : A) → Stays {S = S} (pure a)
pure-Stays a s = refl

module _ (e : Errno) (k : Header) (reply : IocPortStat → Reply (Unit {0})) where
  port_method-Stays : (port : ℕ) (c : PortCall) → Stays (port_method e k reply port c)
  unfolding port_method
  port_method-Stays port c h = elim (Bool-cases (port == 0)) [
    | inl zero_port ↦ rw zero_port refl
    | inr named ↦ elim (Bool-cases (ltb h.port_count port)) [
      | inl large ↦ rw (named, large) refl
      | inr fits ↦ elim (Bool-cases ((port_call k e reply port c).value ==ℤ minus_one)) [
        | inl failed ↦ rw (named, fits, failed) refl
        | inr worked ↦ rw (named, fits, worked) refl
      ]
    ]
  ]

  get_port_stat-Stays : (port : ℕ) → Stays (get_port_stat port)
  unfolding get_port_stat
  get_port_stat-Stays port h = elim (Bool-cases (port == 0)) [
    | inl zero_port ↦ rw zero_port refl
    | inr named ↦ elim (Bool-cases (ltb h.port_count port)) [
      | inl large ↦ rw (named, large) refl
      | inr fits ↦ elim (Option-cases (get_elem? h.derived.port_info (port - 1))) [
        | inl outside ↦ rw (named, fits) (rw (outside, get_port_stat) tt)
        | inr (p, found) ↦ rw (named, fits) (rw (found, get_port_stat) refl)
      ]
    ]
  ]

  call-Stays : (c : PortCall) → Stays (call e k reply c)
  call-Stays c =
      Stays->>= (λ sent. pure tt) (λ sent. pure-Stays tt) (port_method e k reply 1 c)
        (port_method-Stays 1 c)

  either-Stays :
      (b : Bool) (m : Method LocalHcd (Unit {0})) → Stays m → Stays (if b then m else pure tt)
  either-Stays true m stays = stays
  either-Stays false m stays = pure-Stays tt

  call_connected-Stays : (c : PortCall) → Stays (call_connected e k reply c)
  call_connected-Stays c =
      Stays->>= (λ stat. if get_connection stat then call e k reply c else pure tt)
        (λ stat. either-Stays (get_connection stat) (call e k reply c) (call-Stays c))
        (get_port_stat 1) (get_port_stat-Stays 1)

  step-Stays : (m n : Method LocalHcd (Unit {0})) → Stays m → Stays n → Stays (m >> n)
  step-Stays m n first second = Stays->>= (λ r. n) (λ r. second) m first

  triggers : ℕ → Method LocalHcd Bool
  triggers flags = do
    on_trigger e k reply flags trigger_power_on (call e k reply (connect data_rate_full))
    on_trigger e k reply flags trigger_reset (call_connected e k reply (reset_done 1))
    on_trigger e k reply flags trigger_resuming (call_connected e k reply resumed)
    pure true

  triggers-Stays : (flags : ℕ) → Stays (triggers flags)
  unfolding triggers
  triggers-Stays flags =
      Stays->>= _
        (λ r.
          Stays->>= _
            (λ r.
              Stays->>= _ (λ r. pure-Stays true) _
                (either-Stays (has flags trigger_resuming) _ (call_connected-Stays resumed)))
            _ (either-Stays (has flags trigger_reset) _ (call_connected-Stays (reset_done 1))))
        _ (either-Stays (has flags trigger_power_on) _ (call-Stays (connect data_rate_full)))

  -- What a work leaves: the controller as it was, or the URB with its answer.
  pub data Reacts (w : ℕ) (o : Work) (h t : LocalHcd) : Type 0 where
    same : t ≡ h → Reacts w o h t
    answers :
        (u v : Urb)
        → o.kind ≡ process_urb_work u
        → Keeps u v
        → t ≡ record h { store = put h.store w (some (record o { kind = process_urb_work v })) }
        → Reacts w o h t

  pub react-Reacts :
      (w : ℕ) (o : Work) (h t : LocalHcd) (goes_on : Bool)
      → react e k reply w o h ≡ done goes_on t
      → Reacts w o h t
  react-Reacts w o h t goes_on runs = by_kind o.kind refl
    where
      answered :
          (u v : Urb) → o.kind ≡ process_urb_work u → process_urb k u ≡ some v → Reacts w o h t
      answered u v kd answer =
          let after : LocalHcd = record h {
            store = put h.store w (some (record o { kind = process_urb_work v }));
          } in
          let calls : react e k reply w o h ≡ done true after =
            unfold react in rw (kd, react) (rw (answer, react) refl) in
          answers u v kd (process_urb-Keeps k u v answer)
            (sym (done-state true goes_on after t (sym calls ∙ runs)))

      by_kind : (kind : Kind) → o.kind ≡ kind → Reacts w o h t
      by_kind (cancel_urb_work handle) kd =
          let calls : react e k reply w o h ≡ done true h = unfold react in rw (kd, react) refl in
          same (sym (done-state true goes_on h t (sym calls ∙ runs)))
      by_kind (process_urb_work u) kd = elim (Option-cases (process_urb k u)) [
        | inl undefined ↦
            let calls : react e k reply w o h ≡ fault =
              unfold react in rw (kd, react) (rw (undefined, react) refl) in
            absurd (fault-done goes_on t (sym calls ∙ runs))
        | inr (v, answer) ↦ answered u v kd answer
      ]
      by_kind (port_stat_work stat flags) kd = elim (Bool-cases (o.port == 1)) [
        | inl one ↦
            let calls : react e k reply w o h ≡ triggers flags h =
              unfold react triggers in rw (kd, react) (rw one refl) in
            same (Stays-done (triggers flags) goes_on h t (triggers-Stays flags) (sym calls ∙ runs))
        | inr other ↦
            let calls : react e k reply w o h ≡ done false h =
              unfold react in rw (kd, react) (rw other refl) in
            same (sym (done-state false goes_on h t (sym calls ∙ runs)))
      ]
