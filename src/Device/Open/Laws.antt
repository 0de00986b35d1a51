-- ===== src/Device/Open/Laws.antt =====
-- The opening of the device file.
use usb_vhci_libusb.Prelude.{
  ℕ, zero, suc, ◌-◌, ◌<◌, ◌≡◌, ◌≢◌, ◌⊎◌, inl, inr, refl, ap, Bool, Bool-cases, if◌then◌else◌, none,
  some, List, [], ◌∷◌, ◌++◌, length, set, take, get_elem?, replicate, All, pos, arith,
}
use usb_vhci_libusb.Device.{Reply, answer, failed, Returned, fails, returns}
use usb_vhci_libusb.Device.Open.{
  IocRegister, opens, registers, closes, Kernel, strlen, Wanted, Opened, nothing_opened,
  copy_bus_id, usb_vhci_open,
}
use usb_vhci_libusb.Device.Open.Close.{Settles, output_of, usb_vhci_close-returns}

-- A string in an array: the bytes before the first 0, and no more than leave room for a 0.
pub record IsCopy (array copy : List ℕ) : Type 0 where
  pub string : List ℕ
  pub ended : copy ≡ string ++ 0 ∷ []
  pub prefix : string ≡ take (length string) array
  pub no_zero : All (λ c. c ≢ 0) string
  pub longest : (get_elem? array (length string) ≡ some 0) ⊎ (suc (length string) ≡ length array)

pub strlen_lem : (s : List ℕ) → All (λ c. c ≢ 0) s → strlen (s ++ 0 ∷ []) ≡ some (length s)
unfolding strlen
strlen_lem [] plain = refl
strlen_lem (zero ∷ s) plain = absurd (plain.0 refl)
strlen_lem (suc c ∷ s) plain = rw (strlen_lem s plain.1, strlen) refl

-- The last byte is overwritten before the string is measured.
copied :
    (c : ℕ) (array : List ℕ)
    → let ended = set (c ∷ array) (length array) 0 in
      (n : ℕ) × (strlen ended ≡ some n) × IsCopy (c ∷ array) (take (suc n) ended)
unfolding strlen
copied c [] =
    (0, refl, record { string = []; ended = refl; prefix = refl; no_zero = tt; longest = inr refl })
copied zero (d ∷ array) =
    (0, refl, record { string = []; ended = refl; prefix = refl; no_zero = tt; longest = inl refl })
copied (suc c) (d ∷ array) =
    let rest = copied d array in
    let is = rest.2 in
    (
      suc (rest.0),
      rw (rest.1, strlen) refl,
      record {
        string = suc c ∷ is.string;
        ended = ap (λ l. suc c ∷ l) is.ended;
        prefix = ap (λ l. suc c ∷ l) is.prefix;
        no_zero = ((λ e. ground arith), is.no_zero);
        longest = elim is.longest [ inl e ↦ inl e | inr e ↦ inr (ap suc e) ];
      },
    )

copy_bus_id_lem :
    (malloc : Bool) (array : List ℕ)
    → 0 < length array
    → (copy : List ℕ) × (copy_bus_id malloc array ≡ some (if malloc then some copy else none))
      × IsCopy array copy
unfolding copy_bus_id
copy_bus_id_lem malloc [] nonempty = absurd (omega arith)
copy_bus_id_lem malloc (c ∷ array) nonempty =
    let it = copied c array in
    let last : length (c ∷ array) - 1 ≡ length array = omega arith in
    let ended : strlen (set (c ∷ array) (length (c ∷ array) - 1) 0) ≡ some it.0 = rw last it.1 in
    (
      take (suc (it.0)) (set (c ∷ array) (length (c ∷ array) - 1) 0),
      rw (ended, copy_bus_id) refl,
      rw last (it.2),
    )

-- What a call of `usb_vhci_open` comes to, when `close` settles after `n` interrupted calls.
pub data IsOpened (sys : Kernel) (wanted : Wanted) (ports n : ℕ) : Returned Opened → Type 0 where
  not_opened :
      (code : ℕ)
      → sys.on_open ≡ failed code
      → IsOpened sys wanted ports n (fails code (nothing_opened (opens ∷ [])))
  not_registered :
      (fd code : ℕ)
      → sys.on_open ≡ answer fd
      → sys.on_register fd ports ≡ failed code
      → IsOpened sys wanted ports n
          (fails code (nothing_opened (opens ∷ registers fd ports ∷ replicate (suc n) (closes fd))))
  registered :
      (fd : ℕ) (r : IocRegister) (copy : List ℕ)
      → sys.on_open ≡ answer fd
      → sys.on_register fd ports ≡ answer r
      → IsCopy r.bus_id copy
      → IsOpened sys wanted ports n (
          returns (pos fd) (record {
            calls = opens ∷ registers fd ports ∷ [];
            id = if wanted.id then some r.id else none;
            usb_busnum = if wanted.usb_busnum then some r.usb_busnum else none;
            bus_id = if wanted.bus_id then if sys.malloc then some copy else none else none;
          }))

module _ (eintr fuel n : ℕ) (sys : Kernel) (wanted : Wanted) (ports : ℕ)
    (settles : Settles eintr sys.on_close n) (enough : n < fuel) where
  abbrev Comes : Type 0
  Comes =
      (r : Returned Opened) × (usb_vhci_open eintr fuel sys wanted ports ≡ some r)
      × IsOpened sys wanted ports n r

  when_registered :
      (fd : ℕ) (r : IocRegister)
      → sys.on_open ≡ answer fd
      → sys.on_register fd ports ≡ answer r
      → 0 < length r.bus_id
      → Comes
  unfolding usb_vhci_open
  when_registered fd r opened is_registered room =
      let it = copy_bus_id_lem sys.malloc r.bus_id room in
      (_, computed it.0 it.1, registered fd r it.0 opened is_registered it.2)
    where
      computed :
          (copy : List ℕ)
          → copy_bus_id sys.malloc r.bus_id ≡ some (if sys.malloc then some copy else none)
          → usb_vhci_open eintr fuel sys wanted ports
            ≡ some (
                returns (pos fd) (record {
                  calls = opens ∷ registers fd ports ∷ [];
                  id = if wanted.id then some r.id else none;
                  usb_busnum = if wanted.usb_busnum then some r.usb_busnum else none;
                  bus_id = if wanted.bus_id then if sys.malloc then some copy else none else none;
                }))
      computed copy e =
          rw (opened, usb_vhci_open)
            (rw (is_registered, usb_vhci_open)
              (elim (Bool-cases wanted.bus_id) [
                | inl asked ↦ rw (asked, usb_vhci_open) (rw (e, usb_vhci_open) refl)
                | inr unasked ↦ rw (unasked, usb_vhci_open) refl
              ]))

  -- `usb_vhci_open` returns, without undefined behaviour, if the last answer to `close` is not
  -- EINTR and comes within the rounds, and if the kernel's array for the bus id is not empty. It
  -- fails with -1 and the kernel's error number, and sets no output, if the device file cannot be
  -- opened or the controller cannot be registered; then the descriptor that it had opened is
  -- closed, and the error number is that of the registration whatever `close` answers. Else it
  -- returns the open descriptor and sets the outputs that are asked for: the two numbers, and for
  -- the bus id a copy of its string up to the first 0 or the last byte, ended by a 0, if there is
  -- memory.
  pub usb_vhci_open-IsOpened :
      ((fd : ℕ) (r : IocRegister) → sys.on_register fd ports ≡ answer r → 0 < length r.bus_id)
      → (r : Returned Opened) × (usb_vhci_open eintr fuel sys wanted ports ≡ some r)
        × IsOpened sys wanted ports n r
  unfolding usb_vhci_open
  usb_vhci_open-IsOpened room = by_open sys.on_open refl
    where
      by_register :
          (fd : ℕ) (r : Reply IocRegister)
          → sys.on_open ≡ answer fd
          → sys.on_register fd ports ≡ r
          → Comes
      by_register fd (failed code) opened e = (
        _,
        rw (opened, usb_vhci_open)
            (rw (e, usb_vhci_open)
              (rw
                (usb_vhci_close-returns eintr fuel fd n sys.on_close settles enough, usb_vhci_open)
                (rw (output_of (sys.on_close n) (replicate (suc n) (closes fd))) refl))),
        not_registered fd code opened e,
      )
      by_register fd (answer r) opened e = when_registered fd r opened e (room fd r e)

      by_open : (r : Reply ℕ) → sys.on_open ≡ r → Comes
      by_open (failed code) e = (_, rw (e, usb_vhci_open) refl, not_opened code e)
      by_open (answer fd) e = by_register fd (sys.on_register fd ports) e refl
