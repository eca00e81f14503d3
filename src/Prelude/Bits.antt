-- ===== src/Prelude/Bits.antt =====
-- The digit laws of `&` and `|`, and what masks of ones do.
use Prim.Native.Nat.{
  ℕ, zero, suc, ◌+◌, ◌-◌, ◌*◌, ◌/◌, ◌%◌, ◌^◌, ◌≤◌, ◌<◌, min, max, bit_and, bit_or, digits,
  bit_and-bitwise, bit_or-bitwise,
}
use mathlib.Core.Path.{◌≡◌, refl, ◌∙◌, ap}
use native.Mathlib.Omega.{arith}
use native.Mathlib.Nat.{pow-suc, one-le-pow}
use native.Mathlib.Decide.{dec_lt}

module _ (z : ℕ → ℕ) (f : ℕ → ℕ → ℕ) where
  -- One more unit of fuel than the first number changes nothing.
  spare : (n a b : ℕ) → a ≤ n → digits z f (suc n) a b ≡ digits z f n a b
  spare zero zero b h = refl
  spare zero (suc a) b h = absurd (omega arith)
  spare (suc n) zero b h = refl
  spare (suc n) (suc a) b h =
      ap (λ (t : ℕ). t * 2 + f (suc a % 2) (b % 2)) (spare n (suc a / 2) (b / 2) (omega arith))

  enough : (n a b : ℕ) → a ≤ n → digits z f n a b ≡ digits z f a a b
  enough zero zero b h = refl
  enough zero (suc a) b h = absurd (omega arith)
  enough (suc n) a b h = elim (dec_lt n a) [
    | yes p ↦ let full : suc n ≡ a = omega arith in ap (λ (t : ℕ). digits z f t a b) full
    | no p ↦ spare n a b (omega arith) ∙ enough n a b (omega arith)
  ]

pub bit_and-digit : (a b : ℕ) → bit_and a b ≡ bit_and (a / 2) (b / 2) * 2 + min (a % 2) (b % 2)
bit_and-digit zero b = omega (arith, bit_and-bitwise 0 b, bit_and-bitwise 0 (b / 2))
bit_and-digit (suc a) b = omega (
  arith,
  bit_and-bitwise (suc a) b,
  bit_and-bitwise (suc a / 2) (b / 2),
  enough (λ y. 0) min a (suc a / 2) (b / 2) (omega arith),
)

pub bit_or-digit : (a b : ℕ) → bit_or a b ≡ bit_or (a / 2) (b / 2) * 2 + max (a % 2) (b % 2)
bit_or-digit zero b = omega (arith, bit_or-bitwise 0 b, bit_or-bitwise 0 (b / 2))
bit_or-digit (suc a) b = omega (
  arith,
  bit_or-bitwise (suc a) b,
  bit_or-bitwise (suc a / 2) (b / 2),
  enough (λ y. y) max a (suc a / 2) (b / 2) (omega arith),
)

pub bit_and-zero_left : (b : ℕ) → bit_and 0 b ≡ 0
bit_and-zero_left b = bit_and-bitwise 0 b

bit_and-zero_below : (n a : ℕ) → a < n → bit_and a 0 ≡ 0
bit_and-zero_below zero a h = absurd (omega arith)
bit_and-zero_below (suc n) zero h = bit_and-zero_left 0
bit_and-zero_below (suc n) (suc a) h =
    omega (arith, bit_and-digit (suc a) 0, bit_and-zero_below n (suc a / 2) (omega arith))

pub bit_and-zero : (a : ℕ) → bit_and a 0 ≡ 0
bit_and-zero a = bit_and-zero_below (suc a) a (omega arith)

double-pow : (q k : ℕ) → q * 2 ^ suc k ≡ q * 2 ^ k * 2
double-pow q k = omega (arith, ap (λ (t : ℕ). q * t) (pow-suc 2 k))

and_low : (k q r : ℕ) → r < 2 ^ k → bit_and (q * 2 ^ k + r) (2 ^ k - 1) ≡ r
and_low zero q r h = omega (arith, bit_and-zero (q * 2 ^ 0 + r))
and_low (suc k) q r h =
    let halved : (q * 2 ^ suc k + r) / 2 ≡ q * 2 ^ k + r / 2 = omega (arith, double-pow q k) in
    let ones : (2 ^ suc k - 1) / 2 ≡ 2 ^ k - 1 = omega (arith, pow-suc 2 k) in
    let below = and_low k q (r / 2) (omega (arith, pow-suc 2 k)) in
    bit_and-digit (q * 2 ^ suc k + r) (2 ^ suc k - 1)
    ∙ rw (halved, ones, below) (omega (arith, double-pow q k, pow-suc 2 k, one-le-pow k 2))

-- A mask of `k` ones is the remainder by `2 ^ k`.
pub bit_and-ones : (k a : ℕ) → bit_and a (2 ^ k - 1) ≡ a % 2 ^ k
bit_and-ones k a = ground (arith, one-le-pow k 2, and_low k (a / 2 ^ k) (a % 2 ^ k))

bit_and-double : (a m n : ℕ) → n ≡ m * 2 → bit_and a n ≡ bit_and (a / 2) m * 2
bit_and-double a m n e =
    let halved : n / 2 ≡ m = omega arith in bit_and-digit a n ∙ rw halved (omega arith)

-- A mask with four zeros at its end clears the last hexadecimal digit.
pub bit_and_hex : (a m : ℕ) → bit_and a (m * 16) ≡ bit_and (a / 2 / 2 / 2 / 2) m * 16
bit_and_hex a m = omega (
  arith,
  bit_and-double a (m * 8) (m * 16) (omega arith),
  bit_and-double (a / 2) (m * 4) (m * 8) (omega arith),
  bit_and-double (a / 2 / 2) (m * 2) (m * 4) (omega arith),
  bit_and-double (a / 2 / 2 / 2) m (m * 2) (omega arith),
)

-- A mask with eight zeros at its end goes to the bytes above the lowest.
pub bit_and-byte : (a m : ℕ) → bit_and a (m * 256) ≡ bit_and (a / 256) m * 256
bit_and-byte a m =
    let quarter : a / 2 / 2 / 2 / 2 ≡ a / 16 = omega arith in
    let whole : a / 16 / 2 / 2 / 2 / 2 ≡ a / 256 = omega arith in
    let high : bit_and a (m * 16 * 16) ≡ bit_and (a / 16) (m * 16) * 16 =
      rw quarter at (bit_and_hex a (m * 16)) in
    let low : bit_and (a / 16) (m * 16) ≡ bit_and (a / 256) m * 16 =
      rw whole at (bit_and_hex (a / 16) m) in
    let regroup : m * 256 ≡ m * 16 * 16 = omega arith in rw regroup (omega (arith, high, low))

bit_or-zero_below : (n a : ℕ) → a < n → bit_or a 0 ≡ a
bit_or-zero_below zero a h = absurd (omega arith)
bit_or-zero_below (suc n) zero h = bit_or-bitwise 0 0
bit_or-zero_below (suc n) (suc a) h =
    omega (arith, bit_or-digit (suc a) 0, bit_or-zero_below n (suc a / 2) (omega arith))

pub bit_or-zero : (a : ℕ) → bit_or a 0 ≡ a
bit_or-zero a = bit_or-zero_below (suc a) a (omega arith)

-- Numbers that share no bit: the high one a multiple of `2 ^ k`, the low one below it.
pub bit_or-fields : (k q r : ℕ) → r < 2 ^ k → bit_or (q * 2 ^ k) r ≡ q * 2 ^ k + r
bit_or-fields zero q r h =
    let none_left : r ≡ 0 = omega arith in rw none_left (bit_or-zero (q * 2 ^ 0) ∙ omega arith)
bit_or-fields (suc k) q r h =
    let halved : q * 2 ^ suc k / 2 ≡ q * 2 ^ k = omega (arith, double-pow q k) in
    let below = bit_or-fields k q (r / 2) (omega (arith, pow-suc 2 k)) in
    bit_or-digit (q * 2 ^ suc k) r ∙ rw (halved, below) (omega (arith, double-pow q k))
