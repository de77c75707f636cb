-- ===== src/Shard/Chain.antt =====
-- Chains of waiters through `next`, and how often a number stands in a list.
use gpu_fpga_dma.Base.{
  ℕ, zero, suc, ◌+◌, ◌≤◌, ◌<◌, ◌≡◌, ◌≢◌, refl, sym, List, [], ◌∷◌, ◌++◌, arith, Array, update, ◌==◌,
  if◌then◌else◌, update_ne, subst, ==_refl,
}
use gpu_fpga_dma.Shard.{Waiter, co_nil}
use native.Mathlib.Decide.{dec_lt, ℕ_discrete}

-- How often `a` stands in a list.
abbrev pub occ : ℕ → List ℕ → ℕ
occ a [] = 0
occ a (x ∷ xs) = (if x == a then 1 else 0) + occ a xs

pub occ-append : (a : ℕ) (xs ys : List ℕ) → occ a (xs ++ ys) ≡ occ a xs + occ a ys
occ-append a [] ys = omega arith
occ-append a (x ∷ xs) ys = omega (arith, occ-append a xs ys)

-- From `h` the `next` fields lead through the nodes `xs` to `CO_NIL`.
abbrev pub Chain : Array Waiter → ℕ → List ℕ → Type 0
Chain f h [] = h ≡ co_nil
Chain f h (x ∷ xs) = (h ≡ x) × (x ≢ co_nil) × Chain f (f x).next xs

-- A write to a node outside a chain leaves the chain.
pub Chain-update :
    (f : Array Waiter) (a : ℕ) (w : Waiter) (h : ℕ) (xs : List ℕ)
    → occ a xs ≡ 0
    → Chain f h xs
    → Chain (update f a w) h xs
Chain-update f a w h [] o c = c
Chain-update f a w h (x ∷ xs) o (e, n, c) =
    let ne : a ≢ x = ground arith in
    (
      e,
      n,
      subst (λ (v : Waiter). Chain (update f a w) v.next xs) (sym (update_ne f w ne))
          (Chain-update f a w (f x).next xs (omega arith) c),
    )

-- The sum of `f` over the indices below `n`.
unfoldable pub total : ℕ → Array ℕ → ℕ
total zero f = 0
total (suc n) f = total n f + f n

pub total_cong : (n : ℕ) (f g : Array ℕ) → ((i : ℕ) → i < n → f i ≡ g i) → total n f ≡ total n g
unfolding total
total_cong zero f g h = refl
total_cong (suc n) f g h =
    omega (arith, total_cong n f g (λ i lt. h i (omega arith)), h n (omega arith))

-- One summand replaced.
pub total-update :
    (n : ℕ) (f : Array ℕ) (i a : ℕ) → i < n → total n (update f i a) + f i ≡ total n f + a
unfolding total
total-update zero f i a h = absurd (omega arith)
total-update (suc n) f i a h = elim (ℕ_discrete i n) [
  | yes e ↦ rw e (ground (arith, total_cong n (update f n a) f (λ j lt. ground arith)))
  | no ne ↦ ground (arith, total-update n f i a (omega arith))
]

pub total-zero : (cap : ℕ) (f : Array ℕ) → ((i : ℕ) → i < cap → f i ≡ 0) → total cap f ≡ 0
unfolding total
total-zero zero f h = refl
total-zero (suc cap) f h =
    omega (arith, total-zero cap f (λ i lt. h i (omega arith)), h cap (omega arith))

pub le-total : (n : ℕ) (f : Array ℕ) (i : ℕ) → i < n → f i ≤ total n f
unfolding total
le-total zero f i h = elim h [ ]
le-total (suc n) f i h = elim (dec_lt i n) [
  | yes lt ↦ omega (arith, le-total n f i lt)
  | no ge ↦ let e : i ≡ n = omega arith in rw e (omega arith)
]

pub two-le-total : (n : ℕ) (f : Array ℕ) (i j : ℕ) → i < n → j < n → i ≢ j → f i + f j ≤ total n f
unfolding total
two-le-total zero f i j hi hj ne = elim hi [ ]
two-le-total (suc n) f i j hi hj ne = elim (dec_lt i n) [
  | yes a ↦ elim (dec_lt j n) [
    | yes b ↦ omega (arith, two-le-total n f i j a b ne)
    | no b ↦ let e : j ≡ n = omega arith in rw e (omega (arith, le-total n f i a))
  ]
  | no a ↦ let e : i ≡ n = omega arith in rw e (omega (arith, le-total n f j (omega arith)))
]

-- A chain sees no more of the arena than its own nodes.
pub Chain_cong :
    (f g : Array Waiter) (h : ℕ) (xs : List ℕ)
    → ((a : ℕ) → occ a xs ≢ 0 → (g a).next ≡ (f a).next)
    → Chain f h xs
    → Chain g h xs
Chain_cong f g h [] same c = c
Chain_cong f g h (x ∷ xs) same (e, n, c) = (
  e,
  n,
  subst (λ j. Chain g j xs) (sym (same x (ground (arith, ==_refl x))))
      (Chain_cong f g (f x).next xs (λ a o. same a (omega arith)) c),
)
