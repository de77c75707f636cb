-- ===== src/Base/Bits.antt =====
-- Masks and packed fields: `x & (2 ^ k - 1)` is `x % 2 ^ k`, and `|` of disjoint fields is `+`.
use Prim.Native.Nat.{
  ℕ, zero, suc, ◌+◌, ◌-◌, ◌*◌, ◌/◌, ◌%◌, ◌^◌, ◌≤◌, ◌<◌, min, max, bit_and, bit_or, digits,
  bit_and-bitwise, bit_or-bitwise,
}
use mathlib.Core.Path.{◌≡◌, refl}
use native.Mathlib.Omega.{arith}
use native.Mathlib.Nat.{pow-suc, le_refl, mod-mod_of_dvd, dvd_of_mod-eq-zero, mul-mod_left}
use native.Mathlib.Nat.{add-zero, add-suc}

-- The library defines both operations by `digits`, whose first number is fuel: any fuel that
-- reaches the first operand gives the same result.
module _ (low : ℕ → ℕ) (join : ℕ → ℕ → ℕ) where
  enough : (f g a b : ℕ) → a ≤ f → a ≤ g → digits low join f a b ≡ digits low join g a b
  enough zero zero a b hf hg = refl
  enough zero (suc g) zero b hf hg = refl
  enough (suc f) zero zero b hf hg = refl
  enough (suc f) (suc g) zero b hf hg = refl
  enough zero g (suc a) b hf hg = absurd (omega arith)
  enough (suc f) zero (suc a) b hf hg = absurd (omega arith)
  enough (suc f) (suc g) (suc a) b hf hg =
      rw (enough f g (suc a / 2) (b / 2) (omega arith) (omega arith))

-- The lowest digit of each operation.
and_digit : (a b : ℕ) → bit_and a b ≡ bit_and (a / 2) (b / 2) * 2 + min (a % 2) (b % 2)
and_digit zero b = rw (bit_and-bitwise 0 b, bit_and-bitwise 0 (b / 2)) (omega arith)
and_digit (suc a) b =
    let half = enough (λ _. 0) min a (suc a / 2) (suc a / 2) (b / 2) (omega arith) (le_refl _) in
    omega (arith, bit_and-bitwise (suc a) b, bit_and-bitwise (suc a / 2) (b / 2), half)

or_digit : (a b : ℕ) → bit_or a b ≡ bit_or (a / 2) (b / 2) * 2 + max (a % 2) (b % 2)
or_digit zero b = rw (bit_or-bitwise 0 b, bit_or-bitwise 0 (b / 2)) (omega arith)
or_digit (suc a) b =
    let half = enough (λ c. c) max a (suc a / 2) (suc a / 2) (b / 2) (omega arith) (le_refl _) in
    omega (arith, bit_or-bitwise (suc a) b, bit_or-bitwise (suc a / 2) (b / 2), half)

bit_and-zero_below : (f a : ℕ) → a ≤ f → bit_and a 0 ≡ 0
bit_and-zero_below f zero h = refl
bit_and-zero_below zero (suc a) h = absurd (omega arith)
bit_and-zero_below (suc f) (suc a) h =
    omega (arith, and_digit (suc a) 0, bit_and-zero_below f (suc a / 2) (omega arith))

bit_or-zero_below : (f a : ℕ) → a ≤ f → bit_or a 0 ≡ a
bit_or-zero_below f zero h = refl
bit_or-zero_below zero (suc a) h = absurd (omega arith)
bit_or-zero_below (suc f) (suc a) h =
    omega (arith, or_digit (suc a) 0, bit_or-zero_below f (suc a / 2) (omega arith))

pub one-le-pow : (k : ℕ) → 1 ≤ 2 ^ k
one-le-pow zero = omega arith
one-le-pow (suc k) = rw (pow-suc 2 k) (omega (arith, one-le-pow k))

mul-pow-suc : (q k : ℕ) → q * 2 ^ suc k ≡ 2 * (q * 2 ^ k)
mul-pow-suc q k = rw (pow-suc 2 k) (omega arith)

-- Shifting the digits of `q` up by `k` places leaves room for a field of `k` bits.
bit_and_low : (k q r : ℕ) → r < 2 ^ k → bit_and (q * 2 ^ k + r) (2 ^ k - 1) ≡ r
bit_and_low zero q r h = omega (arith, bit_and-zero_below _ (q * 2 ^ 0 + r) (le_refl _))
bit_and_low (suc k) q r h = ground (
  arith,
  pow-suc 2 k,
  mul-pow-suc q k,
  one-le-pow k,
  and_digit (q * 2 ^ suc k + r) (2 ^ suc k - 1),
  bit_and_low k q (r / 2) (omega (arith, pow-suc 2 k)),
)

-- A mask of `k` ones keeps the remainder by `2 ^ k`.
pub bit_and_mask : (k a : ℕ) → bit_and a (2 ^ k - 1) ≡ a % 2 ^ k
bit_and_mask k a = ground (arith, one-le-pow k, bit_and_low k (a / 2 ^ k) (a % 2 ^ k))

-- Fields that do not overlap are joined by addition.
pub bit_or_fields : (k q r : ℕ) → r < 2 ^ k → bit_or (q * 2 ^ k) r ≡ q * 2 ^ k + r
bit_or_fields zero q r h = ground (arith, bit_or-zero_below (q * 1) (q * 1))
bit_or_fields (suc k) q r h = ground (
  arith,
  pow-suc 2 k,
  mul-pow-suc q k,
  or_digit (q * 2 ^ suc k) r,
  bit_or_fields k q (r / 2) (omega (arith, pow-suc 2 k)),
)

pub pow-add : (k j : ℕ) → 2 ^ (k + j) ≡ 2 ^ j * 2 ^ k
pow-add k zero = rw add-zero (omega arith)
pow-add k (suc j) = rw (add-suc, pow-suc 2 (k + j), pow-suc 2 j, pow-add k j) (grind arith)

-- A power of two divides a larger one, so a remainder by the larger one can be left out.
pub mod_mod_pow : (k m a : ℕ) → k ≤ m → a % 2 ^ m % 2 ^ k ≡ a % 2 ^ k
mod_mod_pow k m a h = mod-mod_of_dvd (2 ^ k) a (dvd_of_mod-eq-zero (2 ^ k) divides)
  where
    divides : 2 ^ m % 2 ^ k ≡ 0
    divides =
        let split : m ≡ k + (m - k) = omega arith in
        rw (split, pow-add k (m - k)) (mul-mod_left (2 ^ (m - k)) (2 ^ k))
