-- ===== src/Device/Port/Laws.antt =====
-- What the six port functions tell the kernel.
use usb_vhci_libusb.Prelude.{
  ℕ, ◌≡◌, Bool, true, false, ◌&&◌, ◌||◌, arith, ◌==◌, if◌then◌else◌, truthy, bit_or, Option, none,
  some, pos,
}
use usb_vhci_libusb.Errno.{Errno}
use usb_vhci_libusb.Kernel.{Header}
use usb_vhci_libusb.Device.{Reply, answer, failed, minus_one}
use usb_vhci_libusb.Device.Port.{
  IocPortStat, PortCall, connect, disconnect, disable, resumed, overcurrent, reset_done, request,
  port_call,
}

-- The new state of the port that each call stands for: the bits of `status` that are on, and the
-- `change` bits that say which part of the state is new.
abbrev pub state_after : Header → PortCall → ℕ × ℕ
state_after k (connect rate) = (
  if rate == 1
      then bit_or k.port_stat_connection k.port_stat_low_speed
      else if rate == 2
      then bit_or k.port_stat_connection k.port_stat_high_speed
      else k.port_stat_connection,
  k.port_stat_c_connection,
)
state_after k disconnect = (0, k.port_stat_c_connection)
state_after k disable = (0, k.port_stat_c_enable)
state_after k resumed = (0, k.port_stat_c_suspend)
state_after k (overcurrent set) =
    (if truthy set then k.port_stat_overcurrent else 0, k.port_stat_c_overcurrent)
state_after k (reset_done enable) = (
  if truthy enable then k.port_stat_enable else 0,
  if truthy enable
      then bit_or k.port_stat_c_reset 0
      else bit_or k.port_stat_c_reset k.port_stat_c_enable,
)

-- Ports are counted from 1, and there are three data rates.
abbrev pub is_allowed : ℕ → PortCall → Bool
is_allowed port (connect rate) = truthy port && (rate == 0 || (rate == 1 || rate == 2))
is_allowed port disconnect = truthy port
is_allowed port disable = truthy port
is_allowed port resumed = truthy port
is_allowed port (overcurrent set) = truthy port
is_allowed port (reset_done enable) = truthy port

abbrev pub is_answer : Reply (Unit {0}) → Bool
is_answer (answer _) = true
is_answer (failed code) = false

-- What a reply leaves in `errno`.
abbrev pub error_of : Reply (Unit {0}) → Option ℕ
error_of (answer _) = none
error_of (failed code) = some code

request_lem :
    (k : Header) (port : ℕ) (c : PortCall)
    → request k port c ≡ (
        if is_allowed port c
        then some (record {
          status = (state_after k c).0;
          change = (state_after k c).1;
          index = port;
          flags = 0;
        })
        else none)
unfolding request
request_lem k port (connect rate) = ground arith
request_lem k port disconnect = ground arith
request_lem k port disable = ground arith
request_lem k port resumed = ground arith
request_lem k port (overcurrent set) = ground arith
request_lem k port (reset_done enable) = ground arith

-- Each port function sends exactly one request if the port is not 0 and the data rate is one of the
-- three, with the port as its index and the state that the call stands for; otherwise it sends
-- none. It returns 0 exactly if it sent one and the kernel accepted it, and else -1, with EINVAL if
-- nothing was sent and with the kernel's error number if the request failed.
pub port_call-sends :
    (k : Header) (e : Errno) (reply : IocPortStat → Reply (Unit {0})) (port : ℕ) (c : PortCall)
    → let r = port_call k e reply port c in
      let ps : IocPortStat = record {
        status = (state_after k c).0;
        change = (state_after k c).1;
        index = port;
        flags = 0;
      } in
      (r.output ≡ (if is_allowed port c then some ps else none))
      × (r.value ≡ (if is_allowed port c && is_answer (reply ps) then pos 0 else minus_one))
      × (r.errno ≡ (if is_allowed port c then error_of (reply ps) else some e.einval))
unfolding port_call
port_call-sends k e reply port c = ground (arith, request_lem k port c)
