-- ===== src/Urb/Object/Heap.antt =====
-- Objects of class `usb::urb` with the arrays behind their pointers: `_cpy`, the copy constructor,
-- `operator=` and the destructor of src/urb.cpp, where an array can be freed twice or be lost.
pub mod Slots
pub mod Counted
pub mod Copy
pub mod Objects
pub mod Lives
pub mod Runs
use usb_vhci_libusb.Prelude.{ℕ, Bool, ◌==◌, if◌then◌else◌, Option, none, some, List, ℤ, pos, negsuc}
use usb_vhci_libusb.Urb.{Urb, IsoPacket}
use usb_vhci_libusb.Outcome.{Outcome, done, throws, fault, bad_alloc, ok, raised, undefined}
use usb_vhci_libusb.Urb.Object.{is_zero, read}

-- The arrays of one type that `new[]` has made and `delete[]` has not destroyed, by their
-- addresses.
abbrev pub Blocks : Type 0 → Type 0
Blocks A = ℕ → Option (List A)

module _ {A : Type 0} where
  abbrev pub place : (ℕ → Option A) → ℕ → Option A → ℕ → Option A
  place f p v q = if p == q then v else f q

module _ {A : Type 0} where
  -- `if(p) delete[] p;`; an array that is not there must not be deleted.
  unfoldable pub delete_array : Option ℕ → Blocks A → Outcome (Blocks A) (Unit {0})
  delete_array none b = done tt b
  delete_array (some p) b = elim (b p) [ none ↦ fault | some xs ↦ done tt (place b p none) ]

  -- `p = new A[n]; std::copy(u, u + n, p);`: `new_address` is what `new` answers, and `from` the
  -- pointer that `u` is once `p` is stored. Copying an array onto itself is undefined.
  unfoldable pub renew :
      (Blocks A → Option ℕ) → ℤ → (ℕ → Option ℕ) → Blocks A → Outcome (Blocks A) (Option ℕ)
  renew new_address (negsuc n) from b = throws bad_alloc b
  renew new_address (pos n) from b = elim (new_address b) [
    | none ↦ throws bad_alloc b
    | some p ↦ elim (from p) [
      | none ↦ fault
      | some q ↦ if q == p then fault else elim (b q) [
        | none ↦ fault
        | some xs ↦ elim (read n xs) [
          | ok ys ↦ done (some p) (place b p (some ys))
          | raised x ↦ fault
          | undefined ↦ fault
        ]
      ]
    ]
  ]

-- The members of an object: `plain` has those of `_urb` but the two pointers, which are addresses.
pub record Object : Type 0 where
  pub plain : Urb
  pub buffer : Option ℕ
  pub iso_packets : Option ℕ

pub record World : Type 0 where
  pub bytes : Blocks ℕ
  pub packets : Blocks IsoPacket
  pub objects : ℕ → Option Object

-- What `new` answers for an array of each type.
pub record Allocator : Type 0 where
  pub new_bytes : Blocks ℕ → Option ℕ
  pub new_packets : Blocks IsoPacket → Option ℕ

-- `if(n) p = ...;` of `_cpy`.
abbrev pub renew_counted :
    {A : Type 0}
    → (Blocks A → Option ℕ)
    → ℤ
    → Option ℕ
    → (ℕ → Option ℕ)
    → Blocks A
    → Outcome (Blocks A) (Option ℕ)
renew_counted new_address n p from b = if is_zero n then done p b else renew new_address n from b

-- `_cpy(u)` on the object `i`, whose members are `self`; `u` is another object, or `none` for the
-- object itself.
unfoldable pub cpy_into : Allocator → ℕ → Option Object → Object → World → Outcome World (Unit {0})
cpy_into m i source self w =
    let buffer_of : ℕ → Option ℕ = λ p. elim source [ none ↦ some p | some u ↦ u.buffer ] in
    let packets_of : ℕ → Option ℕ = λ p. elim source [ none ↦ some p | some u ↦ u.iso_packets ] in
    elim (renew_counted m.new_bytes self.plain.buffer_length self.buffer buffer_of w.bytes) [
      | fault ↦ fault
      | throws x b ↦ throws x (record w { bytes = b; objects = place w.objects i (some self) })
      | done p b ↦
          let filled = record self { buffer = p } in
          elim (renew_counted m.new_packets self.plain.packet_count self.iso_packets packets_of
            w.packets) [
              | fault ↦ fault
              | throws x c ↦
                  throws x
                    (record w { bytes = b; packets = c; objects = place w.objects i (some filled) })
              | done q c ↦ done tt (record w {
                bytes = b;
                packets = c;
                objects = place w.objects i (some (record filled { iso_packets = q }));
              })
            ]
    ]

-- `delete[]` on both arrays of an object.
unfoldable pub free_arrays : Object → World → Outcome World (Unit {0})
free_arrays o w = elim (delete_array o.buffer w.bytes) [
  | fault ↦ fault
  | throws x b ↦ throws x w
  | done _ b ↦ elim (delete_array o.iso_packets w.packets) [
    | fault ↦ fault
    | throws x c ↦ throws x w
    | done _ c ↦ done tt (record w { bytes = b; packets = c })
  ]
]

-- `~urb()` of the object `i`.
unfoldable pub destroy_urb : ℕ → World → Outcome World (Unit {0})
destroy_urb i w = elim (w.objects i) [
  | none ↦ fault
  | some o ↦ elim (free_arrays o w) [
    | fault ↦ fault
    | throws x t ↦ throws x t
    | done _ t ↦ done tt (record t { objects = place t.objects i none })
  ]
]

-- The structure of `u` with both pointers cleared.
abbrev pub cleared : Object → Object
cleared u = record u { buffer = none; iso_packets = none }

-- `urb(const urb&)` at the address `i`, from the object `j`. After an exception there is no object,
-- and no destructor is called for it.
unfoldable pub construct_copy : Allocator → ℕ → ℕ → World → Outcome World (Unit {0})
construct_copy m i j w = elim (w.objects j) [
  | none ↦ fault
  | some u ↦ elim (cpy_into m i (some u) (cleared u) w) [
    | fault ↦ fault
    | throws x t ↦ throws x (record t { objects = place t.objects i none })
    | done _ t ↦ done tt t
  ]
]

-- `operator=` of the object `i`, from the object `j`.
unfoldable pub assign_urb : Allocator → ℕ → ℕ → World → Outcome World (Unit {0})
assign_urb m i j w = elim (w.objects i) [
  | none ↦ fault
  | some self ↦ elim (free_arrays self w) [
    | fault ↦ fault
    | throws x t ↦ throws x t
    | done _ t ↦ elim (w.objects j) [
      | none ↦ fault
      | some u ↦ cpy_into m i (if i == j then none else some u) (cleared u) t
    ]
  ]
]
