-- ===== src/PortStat/Triggers.antt =====
-- `usb_vhci_port_stat_triggers` of src/libusb_vhci.c and the constructors of `port_stat_work` in
-- src/work.cpp: which changes of a port the kernel has issued.
use usb_vhci_libusb.Prelude.{
  sym, ℕ, ◌≡◌, refl, ap, ◌∙◌, Bool, true, false, ◌&&◌, not, arith, bit_or, has, if◌then◌else◌,
}
use usb_vhci_libusb.Kernel.{Header}
use usb_vhci_libusb.PortStat.{
  PortStat, get_enable, get_suspend, get_resuming, get_reset, get_power, stat_enable, stat_suspend,
  stat_reset, stat_power,
}

abbrev pub trigger_disable : ℕ
trigger_disable = 0x01

abbrev pub trigger_suspend : ℕ
trigger_suspend = 0x02

abbrev pub trigger_resuming : ℕ
trigger_resuming = 0x04

abbrev pub trigger_reset : ℕ
trigger_reset = 0x08

abbrev pub trigger_power_on : ℕ
trigger_power_on = 0x10

abbrev pub trigger_power_off : ℕ
trigger_power_off = 0x20

-- `if(test) flags |= trigger;`
abbrev mark : Bool → ℕ → ℕ → ℕ
mark test trigger flags = if test then bit_or flags trigger else flags

unfoldable pub port_stat_triggers : Header → PortStat → PortStat → ℕ
port_stat_triggers k stat prev =
    let f1 =
      mark (not (has stat.status stat_enable) && has prev.status stat_enable) trigger_disable 0 in
    let f2 =
      mark (has stat.status stat_suspend && not (has prev.status stat_suspend)) trigger_suspend
        f1 in
    let f3 =
      mark (has stat.flags k.flag_resuming && not (has prev.flags k.flag_resuming)) trigger_resuming
        f2 in
    let f4 =
      mark (has stat.status stat_reset && not (has prev.status stat_reset)) trigger_reset f3 in
    let f5 =
      mark (has stat.status stat_power && not (has prev.status stat_power)) trigger_power_on f4 in
    mark (not (has stat.status stat_power) && has prev.status stat_power) trigger_power_off f5

-- The trigger flags that `port_stat_work(port, stat, prev)` computes.
unfoldable pub trigger_flags : Header → PortStat → PortStat → ℕ
trigger_flags k stat prev =
    let f1 = mark (not (get_enable stat) && get_enable prev) trigger_disable 0 in
    let f2 = mark (get_suspend stat && not (get_suspend prev)) trigger_suspend f1 in
    let f3 = mark (get_resuming k stat && not (get_resuming k prev)) trigger_resuming f2 in
    let f4 = mark (get_reset stat && not (get_reset prev)) trigger_reset f3 in
    if get_power stat && not (get_power prev)
    then bit_or f4 trigger_power_on
    else mark (not (get_power stat) && get_power prev) trigger_power_off f4

-- Powering on and off exclude one another, so the `else` makes no difference.
either_power :
    (now before : Bool) (f : ℕ)
    → mark (not now && before) trigger_power_off (mark (now && not before) trigger_power_on f) ≡ (
        if now && not before
        then bit_or f trigger_power_on
        else mark (not now && before) trigger_power_off f)
either_power true before f = ground arith
either_power false before f = refl

-- The C function and the C++ class detect the same triggers, on all words and flags.
port_stat_triggers-trigger_flags :
    (k : Header) (stat prev : PortStat) → port_stat_triggers k stat prev ≡ trigger_flags k stat prev
unfolding port_stat_triggers trigger_flags get_enable get_suspend get_resuming get_reset get_power
port_stat_triggers-trigger_flags k stat prev =
    either_power (has stat.status stat_power) (has prev.status stat_power) _

-- What the six tests of a port change are meant to detect.
pub record Edges : Type 0 where
  pub disable : Bool
  pub suspend : Bool
  pub resuming : Bool
  pub reset : Bool
  pub power_on : Bool
  pub power_off : Bool

abbrev pub edges : Header → PortStat → PortStat → Edges
edges k stat prev = record {
  disable = get_enable prev && not (get_enable stat);
  suspend = get_suspend stat && not (get_suspend prev);
  resuming = get_resuming k stat && not (get_resuming k prev);
  reset = get_reset stat && not (get_reset prev);
  power_on = get_power stat && not (get_power prev);
  power_off = get_power prev && not (get_power stat);
}

-- The accessors `triggers_disable` to `triggers_power_off` of `port_stat_work`.
abbrev pub triggered : ℕ → Edges
triggered flags = record {
  disable = has flags trigger_disable;
  suspend = has flags trigger_suspend;
  resuming = has flags trigger_resuming;
  reset = has flags trigger_reset;
  power_on = has flags trigger_power_on;
  power_off = has flags trigger_power_off;
}

marks : Edges → ℕ
marks e = mark e.power_off trigger_power_off (
    mark e.power_on trigger_power_on (
      mark e.reset trigger_reset (
        mark e.resuming trigger_resuming
          (mark e.suspend trigger_suspend (mark e.disable trigger_disable 0)))))

triggered-marks : (e : Edges) → triggered (marks e) ≡ e
unfolding marks has
triggered-marks e = ground arith

not_and : (a b : Bool) → (not a && b) ≡ (b && not a)
not_and a b = ground arith

-- A trigger flag is set exactly when its edge lies between the two port states: a bit that was set
-- and is not (enable, power) or was not set and is (suspend, resuming, reset, power). This holds of
-- the flags of the C function, all six together.
triggered-port_stat_triggers :
    (k : Header) (stat prev : PortStat)
    → triggered (port_stat_triggers k stat prev) ≡ edges k stat prev
triggered-port_stat_triggers k stat prev =
    ap triggered as_marks ∙ triggered-marks (edges k stat prev)
  where
    as_marks : port_stat_triggers k stat prev ≡ marks (edges k stat prev)
    as_marks =
        unfold port_stat_triggers marks get_enable get_suspend get_resuming get_reset get_power in
        rw (
          not_and (has stat.status stat_enable) (has prev.status stat_enable),
          not_and (has stat.status stat_power) (has prev.status stat_power),
        )

-- Both the C function and the C++ class set a trigger flag exactly when its edge lies between the
-- two port states: a bit that was set and is not (enable, power) or was not set and is (suspend,
-- resuming, reset, power). They set the same flags, all six together.
pub triggers_tell :
    (k : Header) (stat prev : PortStat)
    → (triggered (port_stat_triggers k stat prev) ≡ edges k stat prev)
      × (trigger_flags k stat prev ≡ port_stat_triggers k stat prev)
triggers_tell k stat prev =
    (triggered-port_stat_triggers k stat prev, sym (port_stat_triggers-trigger_flags k stat prev))
