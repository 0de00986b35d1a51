-- ===== src/LocalHcd/Ports/Runs.antt =====
-- The ports' records over the life of a local controller.
use usb_vhci_libusb.Prelude.{
  Option, set, get_elem?, length-set, ℕ, zero, suc, ◌+◌, ◌≡◌, ◌≤◌, inl, inr, refl, sym, ap, subst,
  ◌∙◌, true, false, Option-cases, some, List, [], ◌∷◌, length, replicate, All, arith,
}
use mathlib.Core.Option.{some-injective}
use usb_vhci_libusb.Errno.{Errno}
use usb_vhci_libusb.Kernel.{Header}
use usb_vhci_libusb.Outcome.{done}
use usb_vhci_libusb.Hcd.{next_work, add_work_enqueued_callback, remove_work_enqueued_callback}
use usb_vhci_libusb.Hcd.Thread.{Control}
use usb_vhci_libusb.Device.Open.{IocRegister}
use usb_vhci_libusb.LocalHcd.{Memory, new_port, LocalHcd, port_from_address}
use usb_vhci_libusb.LocalHcd.Address.{FirstAt-get, port_from_address-cases}
use usb_vhci_libusb.LocalHcd.Lifetime.{Supplies}
use usb_vhci_libusb.LocalHcd.Lifetime.Ways.{IsNew}
use usb_vhci_libusb.LocalHcd.Ports.{
  IsAddress, PortsWell, Call, hand, finish, cancel, add_callback, remove_callback, port_event,
  urb_event, leaves, run, AllLeft, AllLeft-map,
}
use usb_vhci_libusb.LocalHcd.Ports.Passes.{
  Queues, same, queues, port_stat_attempt-Queues, urb_attempt-Queues,
}
use usb_vhci_libusb.LocalHcd.Ports.Methods.{Leaves-AllLeft}
use usb_vhci_libusb.LocalHcd.Ports.Calls.{
  next_work_loop-PortsWell, finish_work-PortsWell, cancel_process_urb_work-PortsWell,
}

module _ {A : Type 0} (P : A → Type 0) where
  All-set : (xs : List A) (i : ℕ) (v : A) → All P xs → P v → All P (set xs i v)
  All-set [] i v all good = tt
  All-set (x ∷ xs) zero v all good = (good, all.1)
  All-set (x ∷ xs) (suc i) v all good = (all.0, All-set xs i v all.1 good)

  All-get_elem? : (xs : List A) (i : ℕ) {a : A} → All P xs → get_elem? xs i ≡ some a → P a
  All-get_elem? [] i all e = absurd (ground (arith, e))
  All-get_elem? (x ∷ xs) zero all e = subst P (some-injective x _ e) all.0
  All-get_elem? (x ∷ xs) (suc i) all e = All-get_elem? xs i all.1 e

Queues-PortsWell :
    {kept : Option ℕ} {m : Memory} {h t : LocalHcd} (count : ℕ)
    → PortsWell count h
    → Queues kept m h t
    → PortsWell count t
Queues-PortsWell count well same = well
Queues-PortsWell {h = h} count well (queues i q v info o a at_port good) = record {
  ports = well.ports;
  records = length-set h.derived.port_info i v ∙ well.records;
  addresses =
      All-set IsAddress h.derived.port_info i v well.addresses
        (good (All-get_elem? IsAddress h.derived.port_info i well.addresses at_port));
}

replicate_good :
    (n : ℕ) → (length (replicate n new_port) ≡ n) × All IsAddress (replicate n new_port)
replicate_good zero = (refl, tt)
replicate_good (suc n) =
    let (counted, good) = replicate_good n in (ap suc counted, (inr refl, good))

pub IsNew-PortsWell :
    (sup : Supplies) (count file : ℕ) (d : IocRegister) (h : LocalHcd) (c : Control)
    → IsNew sup count file d h c
    → PortsWell count h
IsNew-PortsWell sup count file d h c is =
    let (counted, good) = replicate_good count in
    record {
      ports = is.port_count;
      records = ap length is.port_info ∙ counted;
      addresses = subst (All IsAddress) (sym is.port_info) good;
    }

module _ (e : Errno) (k : Header) (count : ℕ) where
  pub leaves-PortsWell :
      (c : Call) (h : LocalHcd) → PortsWell count h → AllLeft (PortsWell count) (leaves e k c h)
  unfolding next_work add_work_enqueued_callback remove_work_enqueued_callback
  leaves-PortsWell (hand fits) h well =
      Leaves-AllLeft (PortsWell count) (next_work fits h)
        (next_work_loop-PortsWell count fits h.inbox h well)
  leaves-PortsWell (finish m w) h well =
      Leaves-AllLeft (PortsWell count) _ (finish_work-PortsWell count e k m w h well)
  leaves-PortsWell (cancel m handle) h well =
      Leaves-AllLeft (PortsWell count) _
        (cancel_process_urb_work-PortsWell count e k m handle h well)
  leaves-PortsWell (add_callback true c) h well = record {
    ports = well.ports;
    records = well.records;
    addresses = well.addresses;
  }
  leaves-PortsWell (add_callback false c) h well = well
  leaves-PortsWell (remove_callback c) h well = record {
    ports = well.ports;
    records = well.records;
    addresses = well.addresses;
  }
  leaves-PortsWell (port_event index ps psw m) h well =
      AllLeft-map (λ t. Queues-PortsWell count well) _ (port_stat_attempt-Queues k index ps psw m h)
  leaves-PortsWell (urb_event r p u) h well =
      AllLeft-map (λ t. Queues-PortsWell count well) _
        (urb_attempt-Queues k r p u h (well.records ∙ sym well.ports))

  run-PortsWell :
      (calls : List Call) (h t : LocalHcd)
      → PortsWell count h
      → run e k calls h ≡ some t
      → PortsWell count t
  run-PortsWell [] h t well runs = subst (PortsWell count) (some-injective h t runs) well
  run-PortsWell (c ∷ calls) h t well runs = elim (Option-cases (leaves e k c h)) [
    | inl gone ↦ absurd (ground (arith, rw (gone, run) at runs))
    | inr (u, left) ↦
        run-PortsWell calls u t (subst (AllLeft (PortsWell count)) left (leaves-PortsWell c h well))
          (rw (left, run) at runs)
  ]

  -- An address of seven bits is looked up without undefined behaviour, and what is found is a port.
  finds_port :
      (address : ℕ) (t : LocalHcd)
      → PortsWell count t
      → address ≤ 0x7f
      → (port : ℕ) × (port_from_address address t ≡ done port t) × (port ≤ count)
  finds_port address t well small =
      elim (port_from_address-cases address t (well.records ∙ sym well.ports)) [
        | inl (large, thrown) ↦ absurd (omega (arith, large, small))
        | inr (inl (low, (nowhere, unused))) ↦ (0, nowhere, omega arith)
        | inr (inr (j, low, (found, first, back))) ↦
            let (p, at_j, is_it, inside) = FirstAt-get address j t.derived.port_info first in
            (j + 1, found, omega (arith, inside, well.records))
      ]

  -- The bounds of the ports' records hold in every state of a new controller that calls of the
  -- clients and passes of the background thread lead to, in any order, whatever memory and the
  -- kernel answer, while the process is not terminated: there is one record for each port that was
  -- asked for, each device address has seven bits or is 0xff, which stands for none, and
  -- `port_from_address` answers an address of seven bits, without reading beyond the records, with
  -- a port or with 0.
  pub run_bounds :
      (sup : Supplies) (file : ℕ) (d : IocRegister) (new : LocalHcd) (c : Control)
      → IsNew sup count file d new c
      → (calls : List Call) (t : LocalHcd) → run e k calls new ≡ some t
      → (t.port_count ≡ count)
        × (length t.derived.port_info ≡ count)
        × All IsAddress t.derived.port_info
        × ((address : ℕ)
            → address ≤ 0x7f
            → (port : ℕ) × (port_from_address address t ≡ done port t) × (port ≤ count))
  run_bounds sup file d new c is calls t runs =
      let well = run-PortsWell calls new t (IsNew-PortsWell sup count file d new c is) runs in
      (well.ports, well.records, well.addresses, λ address small. finds_port address t well small)
