-- ===== src/Prelude/Bits.antt =====
-- Flag words: testing a mask, and the binary digits of `bit_and` and `bit_or` at variables.
use Prim.Native.Nat.{
  ℕ, zero, suc, ◌+◌, ◌-◌, ◌*◌, ◌/◌, ◌%◌, ◌^◌, ◌≤◌, ◌<◌, min, max, bit_and, bit_or, digits, bitwise,
  bit_and-bitwise, bit_or-bitwise,
}
use mathlib.Core.Path.{◌≡◌, refl, ◌∙◌, ap}
use mathlib.Core.Bool.{Bool, ◌&&◌, ◌||◌}
use native.Mathlib.Omega.{arith}
use native.Mathlib.Nat.{pow-suc, one-le-pow}
use usb_vhci_libusb.Prelude.Tests.{◌==◌, truthy}

-- `word & mask`, read as a truth value.
unfoldable pub has : ℕ → ℕ → Bool
has word mask = truthy (bit_and word mask)

module _ (z : ℕ → ℕ) (f : ℕ → ℕ → ℕ) where
  -- `digits` reads no more fuel than its first number.
  surplus : (n a b : ℕ) → a ≤ n → digits z f (suc n) a b ≡ digits z f n a b
  surplus zero zero b enough = refl
  surplus (suc n) zero b enough = refl
  surplus zero (suc a) b enough = absurd (omega arith)
  surplus (suc n) (suc a) b enough =
      ap (λ (t : ℕ). t * 2 + f (suc a % 2) (b % 2)) (surplus n (suc a / 2) (b / 2) (omega arith))

  spare : (extra n m a b : ℕ) → m ≡ extra + n → a ≤ n → digits z f m a b ≡ digits z f n a b
  spare zero n m a b all enough = ap (λ (t : ℕ). digits z f t a b) (omega arith)
  spare (suc extra) n zero a b all enough = absurd (omega arith)
  spare (suc extra) n (suc m) a b all enough =
      surplus m a b (omega arith) ∙ spare extra n m a b (omega arith) enough

  -- Both numbers lose their lowest digit.
  halves :
      (a b : ℕ)
      → z b ≡ z (b / 2) * 2 + f 0 (b % 2)
      → bitwise z f a b ≡ bitwise z f (a / 2) (b / 2) * 2 + f (a % 2) (b % 2)
  halves zero b base = base
  halves (suc a) b base =
      ap (λ (t : ℕ). t * 2 + f (suc a % 2) (b % 2))
        (spare (a - suc a / 2) (suc a / 2) a (suc a / 2) (b / 2) (omega arith) (omega arith))

bit_or_step : (a b : ℕ) → bit_or a b ≡ bit_or (a / 2) (b / 2) * 2 + max (a % 2) (b % 2)
bit_or_step a b = simp bit_or-bitwise (halves (λ y. y) max a b (omega arith))

bit_and_step : (a b : ℕ) → bit_and a b ≡ bit_and (a / 2) (b / 2) * 2 + min (a % 2) (b % 2)
bit_and_step a b = simp bit_and-bitwise (halves (λ y. 0) min a b (omega arith))

-- The binary digit of weight `2 ^ k`.
pub digit : ℕ → ℕ → ℕ
digit zero a = a % 2
digit (suc k) a = digit k (a / 2)

pub digit-bit_and : (k a b : ℕ) → digit k (bit_and a b) ≡ min (digit k a) (digit k b)
unfolding digit
digit-bit_and zero a b = omega (arith, bit_and_step a b)
digit-bit_and (suc k) a b = ap (digit k) (half a b) ∙ digit-bit_and k (a / 2) (b / 2)
  where
    half : (a b : ℕ) → bit_and a b / 2 ≡ bit_and (a / 2) (b / 2)
    half a b = omega (arith, bit_and_step a b)

pub digit-bit_or : (k a b : ℕ) → digit k (bit_or a b) ≡ max (digit k a) (digit k b)
unfolding digit
digit-bit_or zero a b = omega (arith, bit_or_step a b)
digit-bit_or (suc k) a b = ap (digit k) (half a b) ∙ digit-bit_or k (a / 2) (b / 2)
  where
    half : (a b : ℕ) → bit_or a b / 2 ≡ bit_or (a / 2) (b / 2)
    half a b = omega (arith, bit_or_step a b)

-- The digits of 0 leave none.
none_left : (n a : ℕ) → digits (λ y. 0) min n a 0 ≡ 0
none_left zero zero = refl
none_left zero (suc a) = refl
none_left (suc n) zero = refl
none_left (suc n) (suc a) = omega (arith, none_left n (suc a / 2))

pub bit_and-zero : (a : ℕ) → bit_and a 0 ≡ 0
bit_and-zero a = bit_and-bitwise a 0 ∙ none_left a a

bit_and_double : (a m : ℕ) → bit_and a (2 * m) ≡ bit_and (a / 2) m * 2
bit_and_double a m = bit_and_step a (2 * m) ∙ halves
  where
    half : 2 * m / 2 ≡ m
    half = omega arith

    halves : bit_and (a / 2) (2 * m / 2) * 2 + min (a % 2) (2 * m % 2) ≡ bit_and (a / 2) m * 2
    halves = rw half (omega arith)

-- Masking with a power of two keeps one digit.
bit_and-two_pow : (k a : ℕ) → bit_and a (2 ^ k) ≡ digit k a * 2 ^ k
unfolding digit
bit_and-two_pow zero a = omega (arith, bit_and_step a 1, bit_and-zero (a / 2))
bit_and-two_pow (suc k) a =
    ap (bit_and a) (double k)
    ∙ bit_and_double a (2 ^ k)
    ∙ omega
        (arith, bit_and-two_pow k (a / 2), double k, ap (λ (t : ℕ). digit k (a / 2) * t) (double k))
  where
    double : (k : ℕ) → 2 ^ suc k ≡ 2 * 2 ^ k
    double k = omega (arith, pow-suc 2 k)

digit-lt : (k a : ℕ) → digit k a < 2
unfolding digit
digit-lt zero a = omega arith
digit-lt (suc k) a = digit-lt k (a / 2)

-- A test of one bit reads one digit.
has-digit : (k a : ℕ) → has a (2 ^ k) ≡ (digit k a == 1)
unfolding has
has-digit k a = rw (bit_and-two_pow k a) (read (digit k a) (digit-lt k a))
  where
    read : (d : ℕ) → d < 2 → truthy (d * 2 ^ k) ≡ (d == 1)
    read zero h = ground arith
    read (suc zero) h = ground (arith, one-le-pow k 2)
    read (suc (suc d)) h = absurd (omega arith)

pub has-bit_or : (k a b : ℕ) → has (bit_or a b) (2 ^ k) ≡ (has a (2 ^ k) || has b (2 ^ k))
has-bit_or k a b = ground (
  arith,
  has-digit k a,
  has-digit k b,
  has-digit k (bit_or a b),
  digit-bit_or k a b,
  digit-lt k a,
  digit-lt k b,
)

pub has-bit_and : (k a b : ℕ) → has (bit_and a b) (2 ^ k) ≡ (has a (2 ^ k) && has b (2 ^ k))
has-bit_and k a b = ground (
  arith,
  has-digit k a,
  has-digit k b,
  has-digit k (bit_and a b),
  digit-bit_and k a b,
  digit-lt k a,
  digit-lt k b,
)
