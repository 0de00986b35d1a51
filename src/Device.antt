-- ===== src/Device.antt =====
-- The C interface of src/libusb_vhci.c. The kernel module behind `ioctl` stands outside the
-- repository: each call takes the kernel's answer as an argument, and the request that it sends is
-- part of its result.
pub mod Fetch
pub mod Giveback
pub mod Open
pub mod Port
use usb_vhci_libusb.Prelude.{ℕ, Option, none, some, ℤ, pos, negsuc}

-- What a system call answers: its output, or -1 and an error number.
pub data Reply (A : Type 0) : Type 0 where
  answer : A → Reply A
  failed : ℕ → Reply A

-- What a function of the interface does: its return value, what it leaves in `errno` (`none` if it
-- does not touch it), and its output.
pub record Returned (A : Type 0) : Type 0 where
  pub value : ℤ
  pub errno : Option ℕ
  pub output : A

abbrev pub minus_one : ℤ
minus_one = negsuc 0

abbrev pub fails : {A : Type 0} → ℕ → A → Returned A
fails code a = record { value = minus_one; errno = some code; output = a }

abbrev pub returns : {A : Type 0} → ℤ → A → Returned A
returns v a = record { value = v; errno = none; output = a }
