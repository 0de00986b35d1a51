-- ===== src/Device/Port.antt =====
-- The functions `usb_vhci_port_…` of src/libusb_vhci.c, which tell the kernel of a port's new
-- state.
pub mod Laws
use usb_vhci_libusb.Prelude.{
  ℕ, ◌≡◌, refl, Bool, true, false, ◌||◌, ◌&&◌, not, ◌==◌, if◌then◌else◌, truthy, bit_or, Option,
  none, some, pos, arith,
}
use usb_vhci_libusb.Errno.{Errno}
use usb_vhci_libusb.Kernel.{Header}
use usb_vhci_libusb.Device.{Reply, answer, failed, Returned, fails, returns}

-- `struct usb_vhci_ioc_port_stat`.
pub record IocPortStat : Type 0 where
  pub status : ℕ
  pub change : ℕ
  pub index : ℕ
  pub flags : ℕ

abbrev pub data_rate_full : ℕ
data_rate_full = 0

abbrev pub data_rate_low : ℕ
data_rate_low = 1

abbrev pub data_rate_high : ℕ
data_rate_high = 2

-- The calls of the six functions; a `uint8_t` that is used as a truth value is a number.
pub data PortCall : Type 0 where
  connect : ℕ → PortCall
  disconnect disable resumed : PortCall
  overcurrent reset_done : ℕ → PortCall

-- The request of each function for a valid port; `none` where `port_connect` refuses the data rate.
module _ (k : Header) where
  connect_status : ℕ → ℕ
  connect_status rate =
      let low =
        if rate == data_rate_low
        then bit_or k.port_stat_connection k.port_stat_low_speed
        else k.port_stat_connection in
      if rate == data_rate_high then bit_or low k.port_stat_high_speed else low

  port_connect : ℕ → ℕ → Option IocPortStat
  unfolding connect_status
  port_connect port rate =
      if not (truthy port)
        || (not (rate == data_rate_full)
            && not (rate == data_rate_low)
            && not (rate == data_rate_high))
      then none
      else some (record {
        status = connect_status rate;
        change = k.port_stat_c_connection;
        index = port;
        flags = 0;
      })

  port_disconnect : ℕ → Option IocPortStat
  port_disconnect port =
      if not (truthy port)
      then none
      else some (record { status = 0; change = k.port_stat_c_connection; index = port; flags = 0 })

  port_disable : ℕ → Option IocPortStat
  port_disable port =
      if not (truthy port)
      then none
      else some (record { status = 0; change = k.port_stat_c_enable; index = port; flags = 0 })

  port_resumed : ℕ → Option IocPortStat
  port_resumed port =
      if not (truthy port)
      then none
      else some (record { status = 0; change = k.port_stat_c_suspend; index = port; flags = 0 })

  port_overcurrent : ℕ → ℕ → Option IocPortStat
  port_overcurrent port set =
      if not (truthy port)
      then none
      else some (record {
        status = if truthy set then k.port_stat_overcurrent else 0;
        change = k.port_stat_c_overcurrent;
        index = port;
        flags = 0;
      })

  port_reset_done : ℕ → ℕ → Option IocPortStat
  port_reset_done port enable =
      if not (truthy port)
      then none
      else some (record {
        status = if truthy enable then k.port_stat_enable else 0;
        change = bit_or k.port_stat_c_reset (if truthy enable then 0 else k.port_stat_c_enable);
        index = port;
        flags = 0;
      })

  pub request : ℕ → PortCall → Option IocPortStat
  unfolding port_connect port_disconnect port_disable port_resumed port_overcurrent port_reset_done
  request port (connect rate) = port_connect port rate
  request port disconnect = port_disconnect port
  request port disable = port_disable port
  request port resumed = port_resumed port
  request port (overcurrent set) = port_overcurrent port set
  request port (reset_done enable) = port_reset_done port enable

  -- A function sends its request, or refuses with EINVAL; `reply` is the kernel's answer to a
  -- request.
  unfoldable pub port_call :
      Errno → (IocPortStat → Reply (Unit {0})) → ℕ → PortCall → Returned (Option IocPortStat)
  unfolding request
  port_call e reply port c = elim (request port c) [
    | none ↦ fails e.einval none
    | some ps ↦ elim (reply ps) [
      | answer _ ↦ returns (pos 0) (some ps)
      | failed code ↦ fails code (some ps)
    ]
  ]
