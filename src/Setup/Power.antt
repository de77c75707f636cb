-- ===== src/Setup/Power.antt =====
-- `roundup_pow_of_two` gives the least power of two that is not below its argument.
use gpu_fpga_dma.Base.{
  ℕ, zero, suc, ◌+◌, ◌^◌, ◌≤◌, ◌<◌, ◌≡◌, refl, ◌∙◌, true, arith, leb, subst, lt→not_leb,
}
use native.Mathlib.Nat.{pow-suc, pow-le-pow_right}
use native.Mathlib.Decide.{dec_lt}
use gpu_fpga_dma.Setup.{power_from, roundup_pow_of_two}

-- `p` is the power of two `2 ^ exponent`, and the least one that is not below `n`.
pub record Rounded (n p : ℕ) : Type 0 where
  pub exponent : ℕ
  pub power : p ≡ 2 ^ exponent
  pub enough : n ≤ p
  pub least : (k : ℕ) → n ≤ 2 ^ k → exponent ≤ k

below : (n i k : ℕ) → 2 ^ i < n → n ≤ 2 ^ k → suc i ≤ k
below n i k lt le = elim (dec_lt i k) [
  | yes h ↦ omega (arith, h)
  | no h ↦
      absurd
        (omega (arith, pow-le-pow_right {n = 2} (omega arith) {i = k} {j = i} (omega (arith, h))))
]

power_from-Rounded :
    (f i n : ℕ)
    → n ≤ 2 ^ (i + f)
    → ((k : ℕ) → n ≤ 2 ^ k → i ≤ k)
    → Rounded n (power_from f (2 ^ i) n)
unfolding power_from
power_from-Rounded zero i n fits low = record {
  exponent = i;
  power = refl;
  enough = subst (λ k. n ≤ 2 ^ k) (omega arith) fits;
  least = low;
}
power_from-Rounded (suc f) i n fits low = elim (dec_lt (2 ^ i) n) [
  | yes lt ↦
      rw (lt→not_leb n (2 ^ i) lt, power_from)
        (subst (λ p. Rounded n (power_from f p n)) (pow-suc 2 i ∙ (omega arith))
          (power_from-Rounded f (suc i) n (subst (λ k. n ≤ 2 ^ k) (omega arith) fits)
            (λ k h. below n i k lt h)))
  | no ge ↦
      let le : leb n (2 ^ i) ≡ true = ground arith in
      rw (le, power_from) (record { exponent = i; power = refl; enough = omega arith; least = low })
]

pub roundup-Rounded : (n : ℕ) → n ≤ 2 ^ 32 → Rounded n (roundup_pow_of_two n)
unfolding roundup_pow_of_two
roundup-Rounded n fits = power_from-Rounded 32 0 n fits (λ k h. omega arith)
