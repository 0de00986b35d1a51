-- ===== src/LocalHcd/Lifetime/Ways.antt =====
-- The ways out of the constructor of `local_hcd`, and its last part, after `bus_id` is set.
use usb_vhci_libusb.Prelude.{
  none, ℕ, ◌≡◌, ◌≢◌, ◌⊎◌, inl, inr, refl, ap, ◌∙◌, true, false, Option, some, List, [], ◌∷◌, ◌++◌,
  replicate, take, length, All, pos, Bool-cases,
}
use usb_vhci_libusb.Outcome.{invalid_argument, bad_alloc, other_exception}
use usb_vhci_libusb.Device.{Reply, answer, failed, Returned, returns, minus_one}
use usb_vhci_libusb.Device.Open.{IocRegister, opens, registers, Opened}
use usb_vhci_libusb.Device.Open.Laws.{IsCopy, IsOpened, strlen_lem}
use usb_vhci_libusb.Hcd.Thread.{Control, init_bg_thread}
use usb_vhci_libusb.LocalHcd.{LocalHcd, new_port}
use usb_vhci_libusb.LocalHcd.Lifetime.{
  Supplies, Created, created, not_created, assign, everything, create_ports,
}

take_all : (s t : List ℕ) → take (length s) (s ++ t) ≡ s
take_all [] t = refl
take_all (c ∷ s) t = ap (λ l. c ∷ l) (take_all s t)

assign_lem : (s : List ℕ) → All (λ c. c ≢ 0) s → assign (s ++ 0 ∷ []) ≡ some s
unfolding assign
assign_lem s plain = rw (strlen_lem s plain, assign) (ap some (take_all s (0 ∷ [])))

-- The string that is assigned is the one that was copied.
pub assign-copy : (array copy : List ℕ) (is : IsCopy array copy) → assign copy ≡ some is.string
assign-copy array copy is = ap assign is.ended ∙ assign_lem is.string is.no_zero

-- A new controller: an open descriptor, what the kernel told, ports without state and address, no
-- work, and a thread.
pub record IsNew (sup : Supplies) (count file : ℕ) (d : IocRegister) (h : LocalHcd) (c : Control)
    : Type 0 where
  pub fd : h.derived.fd ≡ pos file
  pub id : h.derived.id ≡ d.id
  pub usb_bus_num : h.derived.usb_bus_num ≡ d.usb_busnum
  pub bus_id :
      IsCopy d.bus_id (h.derived.bus_id ++ 0 ∷ [])
      ⊎ ((sup.sys.malloc ≡ false) × (h.derived.bus_id ≡ []))
  pub port_count : h.port_count ≡ count
  pub port_info : h.derived.port_info ≡ replicate count new_port
  pub none_given : h.derived.given_back ≡ []
  pub empty : (h.inbox ≡ []) × (h.processing ≡ [])
  pub no_works : (p : ℕ) → h.store p ≡ none
  pub runs : sup.create ≡ answer c.bg_thread
  pub flag : c.thread_shutdown ≡ false

-- The ways out of the constructor, when `close` settles after `n` interrupted calls.
pub data IsCreated (sup : Supplies) (ports n : ℕ) : Created → Type 0 where
  no_ports : ports ≡ 0 → IsCreated sup ports n (not_created invalid_argument [])
  unregistered :
      (r : Returned Opened)
      → IsOpened sup.sys everything ports n r
      → r.value ≡ minus_one
      → IsCreated sup ports n (not_created other_exception r.output.calls)
  starved :
      (fd : ℕ) (d : IocRegister)
      → sup.sys.on_open ≡ answer fd
      → sup.sys.on_register fd ports ≡ answer d
      → (sup.assigns ≡ false) ⊎ (sup.allocates ≡ false)
      → IsCreated sup ports n (not_created bad_alloc (opens ∷ registers fd ports ∷ []))
  threadless :
      (fd code : ℕ) (d : IocRegister)
      → sup.sys.on_open ≡ answer fd
      → sup.sys.on_register fd ports ≡ answer d
      → sup.create ≡ failed code
      → IsCreated sup ports n (not_created other_exception (opens ∷ registers fd ports ∷ []))
  complete :
      (fd : ℕ) (d : IocRegister) (h : LocalHcd) (c : Control)
      → sup.sys.on_open ≡ answer fd
      → sup.sys.on_register fd ports ≡ answer d
      → IsNew sup ports fd d h c
      → IsCreated sup ports n (created h c (opens ∷ registers fd ports ∷ []))

-- The result of an opening that sets every output.
abbrev pub opened_as : ℕ → ℕ → IocRegister → Option (List ℕ) → Returned Opened
opened_as ports fd d bus_id = returns (pos fd) (record {
  calls = opens ∷ registers fd ports ∷ [];
  id = some d.id;
  usb_busnum = some d.usb_busnum;
  bus_id = bus_id;
})

module _ (sup : Supplies) (n ports : ℕ) (h : LocalHcd) (fd : ℕ) (d : IocRegister)
    (opened : sup.sys.on_open ≡ answer fd) (given : sup.sys.on_register fd ports ≡ answer d)
    (some_ports : h.port_count ≡ ports) (empty : (h.inbox ≡ []) × (h.processing ≡ []))
    (no_works : (p : ℕ) → h.store p ≡ none) where
  abbrev opened_hcd : List ℕ → LocalHcd
  opened_hcd bus_id = record h {
    derived = record {
      fd = pos fd;
      id = d.id;
      usb_bus_num = d.usb_busnum;
      bus_id = bus_id;
      port_info = replicate h.port_count new_port;
      given_back = [];
    };
  }

  pub create_ports-IsCreated :
      (out : Option (List ℕ)) (bus_id : List ℕ)
      → IsCopy d.bus_id (bus_id ++ 0 ∷ []) ⊎ ((sup.sys.malloc ≡ false) × (bus_id ≡ []))
      → (r : Created) × (create_ports sup h (opened_as ports fd d out) bus_id ≡ some r)
        × IsCreated sup ports n r
  unfolding create_ports init_bg_thread
  create_ports-IsCreated out bus_id named = elim (Bool-cases sup.allocates) [
    | inl room ↦ by_thread room sup.create refl
    | inr no_room ↦ (_, rw (no_room, create_ports) refl, starved fd d opened given (inr no_room))
  ]
    where
      by_thread :
          sup.allocates ≡ true
          → (t : Reply ℕ) → sup.create ≡ t
          → (r : Created) × (create_ports sup h (opened_as ports fd d out) bus_id ≡ some r)
            × IsCreated sup ports n r
      by_thread room (failed code) e = (
        _,
        rw (room, create_ports) (rw (e, create_ports) refl),
        threadless fd code d opened given e,
      )
      by_thread room (answer t) e = (
        _,
        rw (room, create_ports) (rw (e, create_ports) refl),
        complete fd d (opened_hcd bus_id) (record { bg_thread = t; thread_shutdown = false }) opened
            given
            (record {
              fd = refl;
              id = refl;
              usb_bus_num = refl;
              bus_id = named;
              port_count = some_ports;
              port_info = ap (λ k. replicate k new_port) some_ports;
              none_given = refl;
              empty = empty;
              no_works = no_works;
              runs = e;
              flag = refl;
            }),
      )
