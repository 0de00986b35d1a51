-- ===== src/Errno.antt =====
-- The error numbers of <errno.h>, which stands outside the repository: a parameter. `IsErrno` is
-- what POSIX and Linux document, that they are positive and that no two that are used here agree.
use usb_vhci_libusb.Prelude.{ℕ, List, [], ◌∷◌, Distinct, arith}

pub record Errno : Type 0 where
  pub einprogress : ℕ
  pub eremoteio : ℕ
  pub enoent : ℕ
  pub econnreset : ℕ
  pub etimedout : ℕ
  pub eshutdown : ℕ
  pub enodev : ℕ
  pub eproto : ℕ
  pub eilseq : ℕ
  pub etime : ℕ
  pub eoverflow : ℕ
  pub epipe : ℕ
  pub ecomm : ℕ
  pub enosr : ℕ
  pub einval : ℕ
  pub exdev : ℕ
  pub ebadmsg : ℕ
  pub ecanceled : ℕ

-- 0 and the numbers that the status conversions use.
abbrev pub status_codes : Errno → List ℕ
status_codes e =
    0 ∷ e.einprogress ∷ e.eremoteio ∷ e.enoent ∷ e.econnreset ∷ e.etimedout ∷ e.eshutdown ∷ e.enodev
    ∷ e.eproto ∷ e.eilseq ∷ e.etime ∷ e.eoverflow ∷ e.epipe ∷ e.ecomm ∷ e.enosr ∷ e.einval ∷ []

abbrev pub IsErrno : Errno → Type 0
IsErrno e = Distinct (e.exdev ∷ status_codes e)

-- The values of Linux on x86.
abbrev pub linux : Errno
linux = record {
  einprogress = 115;
  eremoteio = 121;
  enoent = 2;
  econnreset = 104;
  etimedout = 110;
  eshutdown = 108;
  enodev = 19;
  eproto = 71;
  eilseq = 84;
  etime = 62;
  eoverflow = 75;
  epipe = 32;
  ecomm = 70;
  enosr = 63;
  einval = 22;
  exdev = 18;
  ebadmsg = 74;
  ecanceled = 125;
}

pub linux-IsErrno : IsErrno linux
linux-IsErrno = omega arith
