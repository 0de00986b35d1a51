-- ===== src/LocalHcd/Account/Calls.antt =====
-- How often a call brings in a URB, or gives it back once more.
use usb_vhci_libusb.Prelude.{
  ℕ, ◌≡◌, ◌-◌, ◌+◌, ◌==◌, Bool, true, false, if◌then◌else◌, none, some, List, [], ◌∷◌, length,
}
use usb_vhci_libusb.Errno.{Errno}
use usb_vhci_libusb.Kernel.{Header}
use usb_vhci_libusb.LocalHcd.{LocalHcd}
use usb_vhci_libusb.LocalHcd.Account.{Balanced}
use usb_vhci_libusb.LocalHcd.Account.Cancels.{repeated}
use usb_vhci_libusb.LocalHcd.Ports.{
  Call, hand, finish, cancel, add_callback, remove_callback, port_event, urb_event, leaves,
}

-- The call leads from `h` to `t`. A pass for a URB brings it in if it queues a work.
abbrev pub comes_in : ℕ → Call → LocalHcd → LocalHcd → ℕ
comes_in n (hand fits) h t = 0
comes_in n (finish m w) h t = 0
comes_in n (cancel m handle) h t = repeated n handle h
comes_in n (add_callback fits c) h t = 0
comes_in n (remove_callback c) h t = 0
comes_in n (port_event index ps psw m) h t = 0
comes_in n (urb_event r p u) h t = if u.handle == n then length t.inbox - length h.inbox else 0

-- The account of every URB is kept.
abbrev pub Accounts : Call → LocalHcd → LocalHcd → Type 0
Accounts c h t = (n : ℕ) → Balanced n (comes_in n c h t) h t

-- The calls of the background thread.
abbrev pub is_background : Call → Bool
is_background (hand fits) = false
is_background (finish m w) = false
is_background (cancel m handle) = true
is_background (add_callback fits c) = false
is_background (remove_callback c) = false
is_background (port_event index ps psw m) = true
is_background (urb_event r p u) = true

-- They leave the works that the client holds.
abbrev pub Keeps : Call → LocalHcd → LocalHcd → Type 0
Keeps c h t = if is_background c then t.processing ≡ h.processing else Unit {0}

module _ (e : Errno) (k : Header) where
  abbrev pub all_come_in : ℕ → List Call → LocalHcd → ℕ
  all_come_in n [] h = 0
  all_come_in n (c ∷ calls) h = elim (leaves e k c h) [
    | none ↦ 0
    | some t ↦ comes_in n c h t + all_come_in n calls t
  ]
