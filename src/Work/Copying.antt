-- ===== src/Work/Copying.antt =====
-- The copying and the destruction of a `process_urb_work` in src/work.cpp, which owns the URB
-- behind its pointer. `Urbs` are the URB objects that `new` has made and `delete` has not yet
-- destroyed.
pub mod Laws
use usb_vhci_libusb.Prelude.{ℕ, Bool, ◌==◌, if◌then◌else◌, Option, none, some}
use usb_vhci_libusb.Urb.{Urb}
use usb_vhci_libusb.Urb.Object.{UrbMemory, copy_urb}
use usb_vhci_libusb.Outcome.{done, throws, fault, bad_alloc, Method, ok, raised, undefined}

abbrev pub Urbs : Type 0
Urbs = ℕ → Option Urb

abbrev pub place : Urbs → ℕ → Option Urb → Urbs
place urbs p v q = if p == q then v else urbs q

-- The members of `work` and of `process_urb_work`; `urb` is an address.
pub record Holder : Type 0 where
  pub port : ℕ
  pub canceled : Bool
  pub urb : ℕ

-- `delete urb`.
unfoldable pub destroy_holder : Holder → Method Urbs (Unit {0})
destroy_holder w urbs = elim (urbs w.urb) [
  | none ↦ fault
  | some u ↦ done tt (place urbs w.urb none)
]

-- The copy constructor; `new_address` is what `new` answers.
unfoldable pub copy_holder : UrbMemory → (Urbs → Option ℕ) → Holder → Method Urbs Holder
copy_holder m new_address w urbs = elim (urbs w.urb) [
  | none ↦ fault
  | some u ↦ elim (new_address urbs) [
    | none ↦ throws bad_alloc urbs
    | some q ↦ elim (copy_urb m u) [
      | ok v ↦ done (record w { urb = q }) (place urbs q (some v))
      | raised x ↦ throws x urbs
      | undefined ↦ fault
    ]
  ]
]

-- `operator=`; the state has the URBs and the work that is assigned to.
unfoldable pub assign_holder :
    UrbMemory → (Urbs → Option ℕ) → Holder → Method (Urbs × Holder) (Unit {0})
unfolding destroy_holder copy_holder
assign_holder m new_address source (urbs, self) = elim (destroy_holder self urbs) [
  | fault ↦ fault
  | throws x freed ↦ throws x (freed, self)
  | done _ freed ↦ elim (copy_holder m new_address source freed) [
    | done w copied ↦ done tt (copied, w)
    | throws x left ↦ throws x (left, record source { urb = self.urb })
    | fault ↦ fault
  ]
]
