-- ===== src/LocalHcd/Lifetime/Creation.antt =====
-- What the constructor of `local_hcd` leaves on each of its ways out.
use usb_vhci_libusb.Prelude.{
  ℕ, ◌<◌, ◌≡◌, inl, inr, refl, ap, subst, ◌∙◌, Bool, false, ◌==◌, if◌then◌else◌, Option, none, some,
  List, [], ◌∷◌, length, pos, ◌==ℤ◌, Bool-cases, arith,
}
use usb_vhci_libusb.Outcome.{bad_alloc}
use usb_vhci_libusb.Device.{answer, Returned, minus_one}
use usb_vhci_libusb.Device.Open.{IocRegister, opens, registers, Opened, usb_vhci_open}
use usb_vhci_libusb.Device.Open.Laws.{
  IsCopy, IsOpened, not_opened, not_registered, registered, usb_vhci_open-IsOpened,
}
use usb_vhci_libusb.Device.Open.Close.{Settles}
use usb_vhci_libusb.Hcd.{construct}
use usb_vhci_libusb.LocalHcd.{LocalHcd}
use usb_vhci_libusb.LocalHcd.Lifetime.{
  Supplies, Created, not_created, unopened, assign, everything, create_ports, construct_local,
}
use usb_vhci_libusb.LocalHcd.Lifetime.Ways.{
  assign-copy, IsCreated, no_ports, unregistered, starved, opened_as, create_ports-IsCreated,
}

pos_ne : (fd : ℕ) → (pos fd ==ℤ minus_one) ≡ false
pos_ne fd = ground arith

module _ (eintr fuel n : ℕ) (sup : Supplies) (ports : ℕ)
    (settles : Settles eintr sup.sys.on_close n) (enough : n < fuel) where
  abbrev Comes : Type 0
  Comes = (r : Created) × (construct_local eintr fuel sup ports ≡ some r) × IsCreated sup ports n r

  abbrev with_ports : LocalHcd
  with_ports = record {
    port_count = ports;
    work_enqueued_callbacks = [];
    inbox = [];
    processing = [];
    store = λ p. none;
    notified = [];
    derived = unopened;
  }

  module _ (some_ports : (ports == 0) ≡ false) where
    constructs : construct ports unopened ≡ some with_ports
    unfolding construct
    constructs = rw (some_ports, construct) refl

    -- What follows on an opening, by whether there is a copy of the bus id and memory for it.
    module _ (fd : ℕ) (d : IocRegister) where
      abbrev OpensWith : Option (List ℕ) → Type 0
      OpensWith out =
          usb_vhci_open eintr fuel sup.sys everything ports ≡ some (opened_as ports fd d out)

      without_copy :
          OpensWith none
          → construct_local eintr fuel sup ports
            ≡ create_ports sup with_ports (opened_as ports fd d none) []
      unfolding construct_local
      without_copy e =
          rw (constructs, construct_local)
            (rw (e, construct_local) (rw (pos_ne fd, construct_local) refl))

      with_copy :
          (copy bus_id : List ℕ)
          → OpensWith (some copy)
          → assign copy ≡ some bus_id
          → construct_local eintr fuel sup ports ≡ (
              if sup.assigns
              then create_ports sup with_ports (opened_as ports fd d (some copy)) bus_id
              else some (not_created bad_alloc (opens ∷ registers fd ports ∷ [])))
      unfolding construct_local
      with_copy copy bus_id e copied =
          rw (constructs, construct_local)
            (rw (e, construct_local)
              (rw (pos_ne fd, construct_local) (rw (copied, construct_local) refl)))

    when_copied :
        (fd : ℕ) (d : IocRegister) (copy : List ℕ)
        → sup.sys.on_open ≡ answer fd
        → sup.sys.on_register fd ports ≡ answer d
        → IsCopy d.bus_id copy
        → OpensWith fd d (if sup.sys.malloc then some copy else none)
        → Comes
    when_copied fd d copy opened given is e = elim (Bool-cases sup.sys.malloc) [
      | inr no_memory ↦
          let (r, made, it) =
            create_ports-IsCreated sup n ports with_ports fd d opened given refl (refl, refl)
              (λ p. refl) none [] (inr (no_memory, refl)) in
          (r, without_copy fd d (e ∙ found no_memory) ∙ made, it)
      | inl memory ↦
          let (r, made, it) =
            create_ports-IsCreated sup n ports with_ports fd d opened given refl (refl, refl)
              (λ p. refl) (some copy) is.string (inl (subst (IsCopy d.bus_id) is.ended is)) in
          let runs =
            with_copy fd d copy is.string (e ∙ found memory) (assign-copy d.bus_id copy is) in
          elim (Bool-cases sup.assigns) [
            | inl room ↦ (r, runs ∙ by_memory _ _ room ∙ made, it)
            | inr no_room ↦
                (_, runs ∙ by_memory _ _ no_room, starved fd d opened given (inl no_room))
          ]
    ]
      where
        found :
            {m : Bool}
            → sup.sys.malloc ≡ m
            → some (opened_as ports fd d (if sup.sys.malloc then some copy else none))
              ≡ some (opened_as ports fd d (if m then some copy else none))
        found h = ap (λ (m : Bool). some (opened_as ports fd d (if m then some copy else none))) h

        by_memory :
            {m : Bool} (x y : Option Created)
            → sup.assigns ≡ m
            → (if sup.assigns then x else y) ≡ (if m then x else y)
        by_memory x y h = ap (λ (m : Bool). if m then x else y) h

    by_opened :
        (r : Returned Opened)
        → usb_vhci_open eintr fuel sup.sys everything ports ≡ some r
        → IsOpened sup.sys everything ports n r
        → Comes
    unfolding construct_local
    by_opened _ e (registered fd d copy opened given is) = when_copied fd d copy opened given is e
    by_opened _ e (not_opened code refused) = (
      _,
      rw (constructs, construct_local) (rw (e, construct_local) refl),
      unregistered _ (not_opened code refused) refl,
    )
    by_opened _ e (not_registered fd code opened refused) = (
      _,
      rw (constructs, construct_local) (rw (e, construct_local) refl),
      unregistered _ (not_registered fd code opened refused) refl,
    )

  -- The constructor of `local_hcd` returns or throws, if the last answer to `close` is not EINTR
  -- and comes within the rounds and the kernel's array for the bus id is not empty. A new
  -- controller has an open descriptor, what the kernel told, the ports that were asked for, none
  -- with an address, no work and a background thread. Without ports it throws before any system
  -- call; if the file cannot be opened or registered it throws with the descriptor closed. Without
  -- memory, or without a thread, it throws and no call closes the descriptor that it had opened.
  pub construct_local-IsCreated :
      ((fd : ℕ) (d : IocRegister) → sup.sys.on_register fd ports ≡ answer d → 0 < length d.bus_id)
      → (r : Created) × (construct_local eintr fuel sup ports ≡ some r) × IsCreated sup ports n r
  unfolding construct_local construct
  construct_local-IsCreated room = elim (Bool-cases (ports == 0)) [
    | inl none_asked ↦ (_, rw (none_asked, construct_local) refl, no_ports (ground arith))
    | inr some_asked ↦
        let (r, e, is) =
          usb_vhci_open-IsOpened eintr fuel n sup.sys everything ports settles enough room in
        by_opened some_asked r e is
  ]
