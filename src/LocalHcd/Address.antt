-- ===== src/LocalHcd/Address.antt =====
-- Ports and device addresses: `port_from_address` and `address_from_port`.
use usb_vhci_libusb.Prelude.{
  ℕ, zero, suc, ◌+◌, ◌≡◌, ◌≢◌, ◌≤◌, ◌<◌, refl, ◌∙◌, ◌⊎◌, inl, inr, false, arith, ltb, ◌==◌,
  Bool-cases, Option, some, List, [], ◌∷◌, length, get_elem?,
}
use usb_vhci_libusb.Outcome.{done, throws, invalid_argument}
use usb_vhci_libusb.LocalHcd.{PortInfo, LocalHcd, address_from_port, port_loop, port_from_address}

-- There is a record for each port.
abbrev pub PortsFit : LocalHcd → Type 0
PortsFit h = length h.derived.port_info ≡ h.port_count

-- No port of the list has the address.
abbrev pub Unused : ℕ → List PortInfo → Type 0
Unused address [] = Unit {0}
Unused address (p ∷ infos) = (p.adr ≢ address) × Unused address infos

-- The port at index `i` of the list has the address, and none before it.
abbrev pub FirstAt : ℕ → ℕ → List PortInfo → Type 0
FirstAt address i [] = ⊥
FirstAt address zero (p ∷ infos) = p.adr ≡ address
FirstAt address (suc i) (p ∷ infos) = (p.adr ≢ address) × FirstAt address i infos

port_loop-cases :
    (address i : ℕ) (infos : List PortInfo)
    → ((port_loop address (length infos) i infos ≡ some 0) × Unused address infos)
      ⊎ ((j : ℕ) × (port_loop address (length infos) i infos ≡ some (i + j + 1))
          × FirstAt address j infos)
unfolding port_loop
port_loop-cases address i [] = inl (refl, tt)
port_loop-cases address i (p ∷ infos) = elim (Bool-cases (p.adr == address)) [
  | inl here ↦ inr (0, rw here (ground arith), ground arith)
  | inr apart ↦ elim (port_loop-cases address (i + 1) infos) [
    | inl (none_has, unused) ↦ inl (rw apart none_has, (ground arith, unused))
    | inr (j, there, first) ↦ inr (suc j, rw apart (there ∙ ground arith), (ground arith, first))
  ]
]

pub FirstAt-get :
    (address i : ℕ) (infos : List PortInfo)
    → FirstAt address i infos
    → (p : PortInfo) × (get_elem? infos i ≡ some p) × (p.adr ≡ address) × (i < length infos)
FirstAt-get address i [] h = absurd h
FirstAt-get address zero (p ∷ infos) h = (p, refl, h, omega arith)
FirstAt-get address (suc i) (p ∷ infos) h =
    let (q, e, a, lt) = FirstAt-get address i infos h.1 in (q, e, a, omega arith)

-- On a controller with a record for each port, an address above 0x7f is refused; any other is
-- answered with 0 if no port has it, and else with the lowest port that has it, which
-- `address_from_port` then answers with the address. The state stays.
pub port_from_address-cases :
    (address : ℕ) (h : LocalHcd)
    → PortsFit h
    → ((0x7f < address) × (port_from_address address h ≡ throws invalid_argument h))
      ⊎ ((address ≤ 0x7f)
          × ((port_from_address address h ≡ done 0 h) × Unused address h.derived.port_info))
      ⊎ ((j : ℕ) × (address ≤ 0x7f)
          × ((port_from_address address h ≡ done (j + 1) h)
              × FirstAt address j h.derived.port_info
              × (address_from_port (j + 1) h ≡ done address h)))
port_from_address-cases address h fit = elim (Bool-cases (ltb 0x7f address)) [
  | inl large ↦ inl (ground arith, unfold port_from_address in rw large)
  | inr small ↦ elim (port_loop-cases address 0 h.derived.port_info) [
    | inl (none_has, unused) ↦
        inr (inl (ground arith, (found 0 small (rounds (some 0) none_has), unused)))
    | inr (j, there, first) ↦
        let (p, e, a, lt) = FirstAt-get address j h.derived.port_info first in
        inr (
          inr (
            j,
            ground arith,
            (
              found (j + 1) small (rounds (some (j + 1)) (there ∙ ground arith)),
              first,
              back j p e a lt,
            ),
          ))
  ]
]
  where
    rounds :
        (r : Option ℕ)
        → port_loop address (length h.derived.port_info) 0 h.derived.port_info ≡ r
        → port_loop address h.port_count 0 h.derived.port_info ≡ r
    rounds r runs = rw (← fit) runs

    found :
        (r : ℕ)
        → ltb 0x7f address ≡ false
        → port_loop address h.port_count 0 h.derived.port_info ≡ some r
        → port_from_address address h ≡ done r h
    found r small runs = unfold port_from_address in rw small (rw (runs, port_from_address))

    back :
        (j : ℕ) (p : PortInfo)
        → get_elem? h.derived.port_info j ≡ some p
        → p.adr ≡ address
        → j < length h.derived.port_info
        → address_from_port (j + 1) h ≡ done address h
    back j p e a lt = unfold address_from_port in ground (arith, fit)
