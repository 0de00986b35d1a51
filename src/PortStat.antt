-- ===== src/PortStat.antt =====
-- src/libusb_vhci.h: `struct usb_vhci_port_stat` and the class `usb::vhci::port_stat` with its
-- accessors. Words are natural numbers; `status` and `change` hold 16 bits and `flags` 8.
pub mod Accessors
pub mod Flags
pub mod Triggers
use usb_vhci_libusb.Prelude.{ℕ, ◌-◌, ◌^◌, Bool, bit_and, bit_or, has, if◌then◌else◌}
use usb_vhci_libusb.Kernel.{Header}

pub record PortStat : Type 0 where
  pub status : ℕ
  pub change : ℕ
  pub flags : ℕ

abbrev pub stat_connection : ℕ
stat_connection = 0x0001

abbrev pub stat_enable : ℕ
stat_enable = 0x0002

abbrev pub stat_suspend : ℕ
stat_suspend = 0x0004

abbrev pub stat_overcurrent : ℕ
stat_overcurrent = 0x0008

abbrev pub stat_reset : ℕ
stat_reset = 0x0010

abbrev pub stat_power : ℕ
stat_power = 0x0100

abbrev pub stat_low_speed : ℕ
stat_low_speed = 0x0200

abbrev pub stat_high_speed : ℕ
stat_high_speed = 0x0400

abbrev pub c_connection : ℕ
c_connection = 0x0001

abbrev pub c_enable : ℕ
c_enable = 0x0002

abbrev pub c_suspend : ℕ
c_suspend = 0x0004

abbrev pub c_overcurrent : ℕ
c_overcurrent = 0x0008

abbrev pub c_reset : ℕ
c_reset = 0x0010

-- `(word & ~mask) | (value ? mask : 0)` on a word of `width` bits.
pub assign : ℕ → ℕ → Bool → ℕ → ℕ
assign width mask value word =
    bit_or (bit_and word (2 ^ width - 1 - mask)) (if value then mask else 0)

-- The default constructor.
abbrev pub no_stat : PortStat
no_stat = record { status = 0; change = 0; flags = 0 }

-- The accessors that write a whole word; those that read one are the fields.
abbrev pub set_status : ℕ → PortStat → PortStat
set_status value p = record p { status = value }

abbrev pub set_change : ℕ → PortStat → PortStat
set_change value p = record p { change = value }

abbrev pub set_flags : ℕ → PortStat → PortStat
set_flags value p = record p { flags = value }

unfoldable pub get_resuming : Header → PortStat → Bool
get_resuming k s = has s.flags k.flag_resuming

unfoldable pub set_resuming : Header → Bool → PortStat → PortStat
set_resuming k value s = record s { flags = assign 8 k.flag_resuming value s.flags }

unfoldable pub get_connection : PortStat → Bool
get_connection s = has s.status stat_connection

unfoldable pub get_enable : PortStat → Bool
get_enable s = has s.status stat_enable

unfoldable pub get_suspend : PortStat → Bool
get_suspend s = has s.status stat_suspend

unfoldable pub get_overcurrent : PortStat → Bool
get_overcurrent s = has s.status stat_overcurrent

unfoldable pub get_reset : PortStat → Bool
get_reset s = has s.status stat_reset

unfoldable pub get_power : PortStat → Bool
get_power s = has s.status stat_power

unfoldable pub get_low_speed : PortStat → Bool
get_low_speed s = has s.status stat_low_speed

unfoldable pub get_high_speed : PortStat → Bool
get_high_speed s = has s.status stat_high_speed

unfoldable pub set_connection : Bool → PortStat → PortStat
set_connection value s = record s { status = assign 16 stat_connection value s.status }

unfoldable pub set_enable : Bool → PortStat → PortStat
set_enable value s = record s { status = assign 16 stat_enable value s.status }

unfoldable pub set_suspend : Bool → PortStat → PortStat
set_suspend value s = record s { status = assign 16 stat_suspend value s.status }

unfoldable pub set_overcurrent : Bool → PortStat → PortStat
set_overcurrent value s = record s { status = assign 16 stat_overcurrent value s.status }

unfoldable pub set_reset : Bool → PortStat → PortStat
set_reset value s = record s { status = assign 16 stat_reset value s.status }

unfoldable pub set_power : Bool → PortStat → PortStat
set_power value s = record s { status = assign 16 stat_power value s.status }

unfoldable pub set_low_speed : Bool → PortStat → PortStat
set_low_speed value s = record s { status = assign 16 stat_low_speed value s.status }

unfoldable pub set_high_speed : Bool → PortStat → PortStat
set_high_speed value s = record s { status = assign 16 stat_high_speed value s.status }

unfoldable pub get_connection_changed : PortStat → Bool
get_connection_changed s = has s.change c_connection

unfoldable pub get_enable_changed : PortStat → Bool
get_enable_changed s = has s.change c_enable

unfoldable pub get_suspend_changed : PortStat → Bool
get_suspend_changed s = has s.change c_suspend

unfoldable pub get_overcurrent_changed : PortStat → Bool
get_overcurrent_changed s = has s.change c_overcurrent

unfoldable pub get_reset_changed : PortStat → Bool
get_reset_changed s = has s.change c_reset

unfoldable pub set_connection_changed : Bool → PortStat → PortStat
set_connection_changed value s = record s { change = assign 16 c_connection value s.change }

unfoldable pub set_enable_changed : Bool → PortStat → PortStat
set_enable_changed value s = record s { change = assign 16 c_enable value s.change }

unfoldable pub set_suspend_changed : Bool → PortStat → PortStat
set_suspend_changed value s = record s { change = assign 16 c_suspend value s.change }

unfoldable pub set_overcurrent_changed : Bool → PortStat → PortStat
set_overcurrent_changed value s = record s { change = assign 16 c_overcurrent value s.change }

unfoldable pub set_reset_changed : Bool → PortStat → PortStat
set_reset_changed value s = record s { change = assign 16 c_reset value s.change }
