-- ===== src/PortStat/Accessors.antt =====
-- The accessors of `usb::vhci::port_stat` act on one flag each.
use usb_vhci_libusb.Prelude.{
  ℕ, zero, suc, ◌-◌, ◌^◌, ◌<◌, ◌≡◌, refl, sym, ◌∙◌, Bool, true, false, ◌&&◌, not, arith, ◌==◌,
  if◌then◌else◌, bit_and, bit_or, has, has-bit_and, has-bit_or, ==_refl,
}
use usb_vhci_libusb.Kernel.{Header}
use usb_vhci_libusb.PortStat.{
  PortStat, assign, get_connection, set_connection, get_enable, set_enable, get_suspend,
  set_suspend, get_overcurrent, set_overcurrent, get_reset, set_reset, get_power, set_power,
  get_low_speed, set_low_speed, get_high_speed, set_high_speed, get_connection_changed,
  set_connection_changed, get_enable_changed, set_enable_changed, get_suspend_changed,
  set_suspend_changed, get_overcurrent_changed, set_overcurrent_changed, get_reset_changed,
  set_reset_changed, get_resuming, set_resuming,
}

-- A test that is run for every bit number below `width`.
bits_pass : (ℕ → Bool) → ℕ → Bool
bits_pass test zero = true
bits_pass test (suc width) = test 0 && bits_pass (λ bit. test (suc bit)) width

both : (a b : Bool) → (a && b) ≡ true → (a ≡ true) × (b ≡ true)
both a b h = ground arith

bit_passes :
    (test : ℕ → Bool) (width bit : ℕ) → bit < width → bits_pass test width ≡ true → test bit ≡ true
unfolding bits_pass
bit_passes test zero bit inside h = absurd (omega arith)
bit_passes test (suc width) zero inside h = (both _ _ h).0
bit_passes test (suc width) (suc bit) inside h =
    bit_passes (λ bit. test (suc bit)) width bit (omega arith) (both _ _ h).1

-- Two truth values agree.
abbrev same : Bool → Bool → Bool
same true b = b
same false b = not b

same_sound : (a b : Bool) → same a b ≡ true → a ≡ b
same_sound true true h = refl
same_sound true false h = sym h
same_sound false true h = h
same_sound false false h = refl

-- Over bit numbers below the width: a power of two holds its own bit, and its complement the rest.
abbrev masks_fit : ℕ → ℕ → ℕ → Bool
masks_fit width i j =
    same (has (2 ^ j) (2 ^ i)) (i == j)
    && (same (has (2 ^ width - 1 - 2 ^ j) (2 ^ i)) (not (i == j)) && not (has 0 (2 ^ i)))

abbrev masks_table : ℕ → Bool
masks_table width = bits_pass (λ i. bits_pass (λ j. masks_fit width i j) width) width

masks_16 : masks_table 16 ≡ true
unfolding bits_pass has
masks_16 = refl

masks_8 : masks_table 8 ≡ true
unfolding bits_pass has
masks_8 = refl

module _ (width i j : ℕ) (hi : i < width) (hj : j < width) (table : masks_table width ≡ true) where
  fits : masks_fit width i j ≡ true
  fits =
      bit_passes (λ j. masks_fit width i j) width j hj
        (bit_passes (λ i. bits_pass (λ j. masks_fit width i j) width) width i hi table)

  and_parts : (a b c : Bool) → (a && (b && c)) ≡ true → (a ≡ true) × (b ≡ true) × (c ≡ true)
  and_parts a b c h = ground arith

  -- Writing one flag of a word leaves every other flag.
  has-assign :
      (v : Bool) (w : ℕ)
      → has (assign width (2 ^ j) v w) (2 ^ i) ≡ (if i == j then v else has w (2 ^ i))
  unfolding assign
  has-assign v w = assigned v
    where
      known :
          (same (has (2 ^ j) (2 ^ i)) (i == j) ≡ true)
          × (same (has (2 ^ width - 1 - 2 ^ j) (2 ^ i)) (not (i == j)) ≡ true)
          × (not (has 0 (2 ^ i)) ≡ true)
      known = and_parts _ _ _ fits

      assigned :
          (v : Bool)
          → has (bit_or (bit_and w (2 ^ width - 1 - 2 ^ j)) (if v then 2 ^ j else 0)) (2 ^ i)
            ≡ (if i == j then v else has w (2 ^ i))
      assigned true =
          has-bit_or i (bit_and w (2 ^ width - 1 - 2 ^ j)) (2 ^ j)
          ∙ ground (arith, known, has-bit_and i w (2 ^ width - 1 - 2 ^ j))
      assigned false =
          has-bit_or i (bit_and w (2 ^ width - 1 - 2 ^ j)) 0
          ∙ ground (arith, known, has-bit_and i w (2 ^ width - 1 - 2 ^ j))

-- The flags of `status` by name, with the number of their bit.
pub data Flag : Type 0 where
  connection enable suspend overcurrent reset power low_speed high_speed : Flag

abbrev pub bit_of : Flag → ℕ
bit_of connection = 0
bit_of enable = 1
bit_of suspend = 2
bit_of overcurrent = 3
bit_of reset = 4
bit_of power = 8
bit_of low_speed = 9
bit_of high_speed = 10

bit_of-lt : (f : Flag) → bit_of f < 16
bit_of-lt connection = omega arith
bit_of-lt enable = omega arith
bit_of-lt suspend = omega arith
bit_of-lt overcurrent = omega arith
bit_of-lt reset = omega arith
bit_of-lt power = omega arith
bit_of-lt low_speed = omega arith
bit_of-lt high_speed = omega arith

abbrev pub get : Flag → PortStat → Bool
get connection = get_connection
get enable = get_enable
get suspend = get_suspend
get overcurrent = get_overcurrent
get reset = get_reset
get power = get_power
get low_speed = get_low_speed
get high_speed = get_high_speed

abbrev pub put : Flag → Bool → PortStat → PortStat
put connection = set_connection
put enable = set_enable
put suspend = set_suspend
put overcurrent = set_overcurrent
put reset = set_reset
put power = set_power
put low_speed = set_low_speed
put high_speed = set_high_speed

pub get_lem : (f : Flag) (s : PortStat) → get f s ≡ has s.status (2 ^ bit_of f)
unfolding get_connection get_enable get_suspend get_overcurrent get_reset get_power get_low_speed
    get_high_speed
get_lem connection s = refl
get_lem enable s = refl
get_lem suspend s = refl
get_lem overcurrent s = refl
get_lem reset s = refl
get_lem power s = refl
get_lem low_speed s = refl
get_lem high_speed s = refl

pub put_lem :
    (f : Flag) (v : Bool) (s : PortStat)
    → put f v s ≡ record s { status = assign 16 (2 ^ bit_of f) v s.status }
unfolding set_connection set_enable set_suspend set_overcurrent set_reset set_power set_low_speed
    set_high_speed
put_lem connection v s = refl
put_lem enable v s = refl
put_lem suspend v s = refl
put_lem overcurrent v s = refl
put_lem reset v s = refl
put_lem power v s = refl
put_lem low_speed v s = refl
put_lem high_speed v s = refl

-- Each of the eight setters of `status` flags determines what its own getter reads, leaves what the
-- seven other getters read, and leaves the other two words.
pub get-put :
    (f g : Flag) (v : Bool) (s : PortStat)
    → (get f (put g v s) ≡ (if bit_of f == bit_of g then v else get f s))
      × ((put g v s).change ≡ s.change)
      × ((put g v s).flags ≡ s.flags)
get-put f g v s =
    rw (get_lem f (put g v s), get_lem f s, put_lem g v s)
      (
        has-assign 16 (bit_of f) (bit_of g) (bit_of-lt f) (bit_of-lt g) masks_16 v s.status,
        refl,
        refl,
      )

-- The flags that have a `change` bit.
pub data ChangeFlag : Type 0 where
  connection enable suspend overcurrent reset : ChangeFlag

abbrev pub change_bit : ChangeFlag → ℕ
change_bit connection = 0
change_bit enable = 1
change_bit suspend = 2
change_bit overcurrent = 3
change_bit reset = 4

change_bit-lt : (f : ChangeFlag) → change_bit f < 16
change_bit-lt connection = omega arith
change_bit-lt enable = omega arith
change_bit-lt suspend = omega arith
change_bit-lt overcurrent = omega arith
change_bit-lt reset = omega arith

abbrev pub get_changed : ChangeFlag → PortStat → Bool
get_changed connection = get_connection_changed
get_changed enable = get_enable_changed
get_changed suspend = get_suspend_changed
get_changed overcurrent = get_overcurrent_changed
get_changed reset = get_reset_changed

abbrev pub put_changed : ChangeFlag → Bool → PortStat → PortStat
put_changed connection = set_connection_changed
put_changed enable = set_enable_changed
put_changed suspend = set_suspend_changed
put_changed overcurrent = set_overcurrent_changed
put_changed reset = set_reset_changed

pub get_changed_lem :
    (f : ChangeFlag) (s : PortStat) → get_changed f s ≡ has s.change (2 ^ change_bit f)
unfolding get_connection_changed get_enable_changed get_suspend_changed get_overcurrent_changed
    get_reset_changed
get_changed_lem connection s = refl
get_changed_lem enable s = refl
get_changed_lem suspend s = refl
get_changed_lem overcurrent s = refl
get_changed_lem reset s = refl

pub put_changed_lem :
    (f : ChangeFlag) (v : Bool) (s : PortStat)
    → put_changed f v s ≡ record s { change = assign 16 (2 ^ change_bit f) v s.change }
unfolding set_connection_changed set_enable_changed set_suspend_changed set_overcurrent_changed
    set_reset_changed
put_changed_lem connection v s = refl
put_changed_lem enable v s = refl
put_changed_lem suspend v s = refl
put_changed_lem overcurrent v s = refl
put_changed_lem reset v s = refl

-- Each of the five setters of `change` flags determines what its own getter reads, leaves what the
-- four other getters read, and leaves the other two words.
pub get_changed-put_changed :
    (f g : ChangeFlag) (v : Bool) (s : PortStat)
    → (get_changed f (put_changed g v s)
        ≡ (if change_bit f == change_bit g then v else get_changed f s))
      × ((put_changed g v s).status ≡ s.status)
      × ((put_changed g v s).flags ≡ s.flags)
get_changed-put_changed f g v s =
    rw (get_changed_lem f (put_changed g v s), get_changed_lem f s, put_changed_lem g v s)
      (
        has-assign 16 (change_bit f) (change_bit g) (change_bit-lt f) (change_bit-lt g) masks_16 v
            s.change,
        refl,
        refl,
      )

-- `set_resuming` writes one bit of `flags`, the one that `get_resuming` reads: given that the
-- header's flag is a single bit of a byte, the getter reads back what was written, every other
-- bit of the byte stays, and so do the other two words.
pub get_resuming-set_resuming :
    (k : Header) (n i : ℕ) (v : Bool) (s : PortStat)
    → n < 8
    → k.flag_resuming ≡ 2 ^ n
    → i < 8
    → (get_resuming k (set_resuming k v s) ≡ v)
      × (has (set_resuming k v s).flags (2 ^ i) ≡ (if i == n then v else has s.flags (2 ^ i)))
      × ((set_resuming k v s).status ≡ s.status)
      × ((set_resuming k v s).change ≡ s.change)
unfolding get_resuming set_resuming
get_resuming-set_resuming k n i v s hn e hi = rw e (
  has-assign 8 n n hn hn masks_8 v s.flags ∙ ground (arith, ==_refl n),
  has-assign 8 i n hi hn masks_8 v s.flags,
  refl,
  refl,
)
