-- ===== src/Base/Words.antt =====
-- Machine words as native numbers: arithmetic on `u32` and `u64` wraps.
use Prim.Native.Nat.{ℕ, zero, suc, ◌+◌, ◌-◌, ◌*◌, ◌/◌, ◌%◌, ◌^◌, ◌<◌, bit_and}
use mathlib.Core.Path.{◌≡◌, refl, ap}
use mathlib.Core.Bool.{Bool}
use native.Mathlib.Omega.{arith}
use native.Mathlib.Nat.{pow-suc}
use gpu_fpga_dma.Base.Bits.{one-le-pow}
use gpu_fpga_dma.Base.Tests.{ltb}

abbrev pub add32 : ℕ → ℕ → ℕ
add32 a b = (a + b) % 2 ^ 32

-- `-` on ℕ stops at 0, so the modulus is added first.
abbrev pub sub32 : ℕ → ℕ → ℕ
sub32 a b = (a + 2 ^ 32 - b) % 2 ^ 32

abbrev pub add64 : ℕ → ℕ → ℕ
add64 a b = (a + b) % 2 ^ 64

abbrev pub sub64 : ℕ → ℕ → ℕ
sub64 a b = (a + 2 ^ 64 - b) % 2 ^ 64

abbrev pub mul64 : ℕ → ℕ → ℕ
mul64 a b = (a * b) % 2 ^ 64

abbrev pub mul32 : ℕ → ℕ → ℕ
mul32 a b = (a * b) % 2 ^ 32

-- A cast to `u16`, `u32`.
abbrev pub u16 : ℕ → ℕ
u16 a = a % 2 ^ 16

abbrev pub u32 : ℕ → ℕ
u32 a = a % 2 ^ 32

-- `(s32)a >= 0`
abbrev pub signed32_nonneg : ℕ → Bool
signed32_nonneg a = ltb a (2 ^ 31)

-- `a & ~m`: the bits of `a` that are not in `m`.
abbrev pub and_not : ℕ → ℕ → ℕ
and_not a m = a - bit_and a m

-- `ilog2`: the index of the highest bit; the fuel is the width of the word.
pub ilog2_from : ℕ → ℕ → ℕ
ilog2_from zero n = 0
ilog2_from (suc f) n = elim (ltb n 2) [ Bool.true ↦ 0 | Bool.false ↦ suc (ilog2_from f (n / 2)) ]

unfoldable pub ilog2 : ℕ → ℕ
unfolding ilog2_from
ilog2 n = ilog2_from 64 n

half_pow : (k : ℕ) → 2 ^ suc k / 2 ≡ 2 ^ k
half_pow k = rw (pow-suc 2 k) (omega arith)

-- The logarithm of a power of two that the word holds is its exponent.
pub ilog2_from-pow : (f k : ℕ) → k < f → ilog2_from f (2 ^ k) ≡ k
unfolding ilog2_from
ilog2_from-pow zero k h = absurd (omega arith)
ilog2_from-pow (suc f) zero h = refl
ilog2_from-pow (suc f) (suc k) h = ground (
  arith,
  pow-suc 2 k,
  one-le-pow k,
  ap (ilog2_from f) (half_pow k),
  ilog2_from-pow f k (omega arith),
)

pub ilog2-pow : (k : ℕ) → k < 64 → ilog2 (2 ^ k) ≡ k
unfolding ilog2
ilog2-pow k h = ilog2_from-pow 64 k h
