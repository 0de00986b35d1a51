-- ===== src/Kernel.antt =====
-- What the library takes from <linux/usb-vhci.h>, which stands outside the repository: the
-- constants are a parameter. `IsHeader` is what the code relies on: the labels of one `switch` are
-- distinct, and the resuming flag is one bit of a byte.
use usb_vhci_libusb.Prelude.{ℕ, ◌^◌, ◌<◌, ◌≡◌, refl, [], ◌∷◌, Distinct, arith}

pub record Header : Type 0 where
  pub urb_type_iso : ℕ
  pub urb_type_int : ℕ
  pub urb_type_control : ℕ
  pub urb_type_bulk : ℕ
  pub work_type_port_stat : ℕ
  pub work_type_process_urb : ℕ
  pub work_type_cancel_urb : ℕ
  pub urb_flags_short_not_ok : ℕ
  pub urb_flags_zero_packet : ℕ
  pub flag_resuming : ℕ
  pub port_stat_connection : ℕ
  pub port_stat_enable : ℕ
  pub port_stat_overcurrent : ℕ
  pub port_stat_low_speed : ℕ
  pub port_stat_high_speed : ℕ
  pub port_stat_c_connection : ℕ
  pub port_stat_c_enable : ℕ
  pub port_stat_c_suspend : ℕ
  pub port_stat_c_overcurrent : ℕ
  pub port_stat_c_reset : ℕ

pub record IsHeader (k : Header) : Type 0 where
  pub urb_types :
      Distinct (k.urb_type_iso ∷ k.urb_type_int ∷ k.urb_type_control ∷ k.urb_type_bulk ∷ [])
  pub work_types :
      Distinct (k.work_type_port_stat ∷ k.work_type_process_urb ∷ k.work_type_cancel_urb ∷ [])
  pub resuming_bit : (n : ℕ) × (n < 8) × (k.flag_resuming ≡ 2 ^ n)

-- A header for tests, with the values of the hub specification for the port bits.
abbrev pub sample : Header
sample = record {
  urb_type_iso = 0;
  urb_type_int = 1;
  urb_type_control = 2;
  urb_type_bulk = 3;
  work_type_port_stat = 0;
  work_type_process_urb = 1;
  work_type_cancel_urb = 2;
  urb_flags_short_not_ok = 1;
  urb_flags_zero_packet = 64;
  flag_resuming = 1;
  port_stat_connection = 1;
  port_stat_enable = 2;
  port_stat_overcurrent = 8;
  port_stat_low_speed = 512;
  port_stat_high_speed = 1024;
  port_stat_c_connection = 1;
  port_stat_c_enable = 2;
  port_stat_c_suspend = 4;
  port_stat_c_overcurrent = 8;
  port_stat_c_reset = 16;
}

pub sample-IsHeader : IsHeader sample
sample-IsHeader = record {
  urb_types = omega arith;
  work_types = omega arith;
  resuming_bit = (0, omega arith, refl);
}
