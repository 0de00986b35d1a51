-- ===== src/Device/Open.antt =====
-- `usb_vhci_open` and `usb_vhci_close` of src/libusb_vhci.c. The answers of `open`, `ioctl` and
-- `close` are arguments, and the system calls that are made are part of the result.
pub mod Close
pub mod Laws
use usb_vhci_libusb.Prelude.{
  ℕ, zero, suc, ◌+◌, ◌-◌, Bool, true, false, ◌==◌, if◌then◌else◌, Option, none, some, List, [], ◌∷◌,
  ◌++◌, length, set, take, ℤ, pos,
}
use usb_vhci_libusb.Device.{Reply, answer, failed, Returned, fails, returns}

-- What the kernel writes into `struct usb_vhci_ioc_register`, whose `bus_id` is an array of bytes.
pub record IocRegister : Type 0 where
  pub id : ℤ
  pub usb_busnum : ℤ
  pub bus_id : List ℕ

pub data SystemCall : Type 0 where
  opens : SystemCall
  registers : ℕ → ℕ → SystemCall
  closes : ℕ → SystemCall

-- The system's answers to one call of `usb_vhci_open`: `close` may be called again and again, and
-- answers by the number of calls before. `malloc` says whether there is memory for the bus id.
pub record Kernel : Type 0 where
  pub on_open : Reply ℕ
  pub on_register : ℕ → ℕ → Reply IocRegister
  pub on_close : ℕ → Reply (Unit {0})
  pub malloc : Bool

-- The loop, with the answers to come and at most `fuel` rounds; `none` is fuel run out. The output
-- is the calls.
module _ (eintr : ℕ) where
  close_loop : ℕ → ℕ → ℕ → (ℕ → Reply (Unit {0})) → Option (Returned (List SystemCall))
  close_loop zero i fd replies = none
  close_loop (suc fuel) i fd replies =
      let again = close_loop fuel (i + 1) fd replies in
      elim (replies i) [
        | answer _ ↦ some (returns (pos 0) (closes fd ∷ []))
        | failed code ↦
            if code == eintr
            then elim again [
              | none ↦ none
              | some r ↦ some (record r { output = closes fd ∷ r.output })
            ]
            else some (fails code (closes fd ∷ []))
      ]

  unfoldable pub usb_vhci_close :
      ℕ → ℕ → (ℕ → Reply (Unit {0})) → Option (Returned (List SystemCall))
  unfolding close_loop
  usb_vhci_close fuel fd replies = close_loop fuel 0 fd replies

-- `none` if no byte is 0: the array is read beyond its end.
pub strlen : List ℕ → Option ℕ
strlen [] = none
strlen (zero ∷ rest) = some 0
strlen (suc c ∷ rest) = elim (strlen rest) [ none ↦ none | some n ↦ some (suc n) ]

-- The output parameters, which the caller may leave out; `bus_id` is the memory that it points to.
pub record Wanted : Type 0 where
  pub id : Bool
  pub usb_busnum : Bool
  pub bus_id : Bool

pub record Opened : Type 0 where
  pub calls : List SystemCall
  pub id : Option ℤ
  pub usb_busnum : Option ℤ
  pub bus_id : Option (List ℕ)

abbrev pub nothing_opened : List SystemCall → Opened
nothing_opened calls = record { calls = calls; id = none; usb_busnum = none; bus_id = none }

-- The copy of the bus id: its array is ended by a 0 byte, then its string is copied. `none` is a
-- read beyond the array, `some none` a failed `malloc`.
unfoldable pub copy_bus_id : Bool → List ℕ → Option (Option (List ℕ))
unfolding strlen
copy_bus_id malloc array =
    let ended = set array (length array - 1) 0 in
    elim (strlen ended) [
      | none ↦ none
      | some n ↦ some (if malloc then some (take (suc n) ended) else none)
    ]

-- `none` is undefined behaviour, or fuel run out in `usb_vhci_close`.
unfoldable pub usb_vhci_open : ℕ → ℕ → Kernel → Wanted → ℕ → Option (Returned Opened)
unfolding usb_vhci_close copy_bus_id
usb_vhci_open eintr fuel sys wanted port_count = elim (sys.on_open) [
  | failed code ↦ some (fails code (nothing_opened (opens ∷ [])))
  | answer fd ↦ elim (sys.on_register fd port_count) [
    | failed code ↦ elim (usb_vhci_close eintr fuel fd (sys.on_close)) [
      | none ↦ none
      | some closed ↦
          some (fails code (nothing_opened (opens ∷ registers fd port_count ∷ closed.output)))
    ]
    | answer r ↦
        let opened : Option (List ℕ) → Returned Opened = λ bus_id. returns (pos fd) (record {
          calls = opens ∷ registers fd port_count ∷ [];
          id = if wanted.id then some (r.id) else none;
          usb_busnum = if wanted.usb_busnum then some (r.usb_busnum) else none;
          bus_id = bus_id;
        }) in
        if wanted.bus_id
        then elim (copy_bus_id (sys.malloc) (r.bus_id)) [
          | none ↦ none
          | some copy ↦ some (opened copy)
        ]
        else some (opened none)
  ]
]
