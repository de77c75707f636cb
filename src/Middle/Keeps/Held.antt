-- ===== src/Middle/Keeps/Held.antt =====
-- The list of held pages as a chain of links, and a page cut out of it.
use gpu_fpga_dma.Base.{
  ℕ, ◌≤◌, ◌≡◌, ◌≢◌, refl, sym, ap, List, [], ◌∷◌, ◌++◌, arith, subst, Array, update, update_self,
  update_ne, ==_refl,
}
use gpu_fpga_dma.Shard.{PendPage}
use gpu_fpga_dma.Shard.Chain.{occ, occ-append}
use gpu_fpga_dma.Shard.Pools.Inv.{Held, Held-cong}

unfoldable pub last : ℕ → List ℕ → ℕ
last k [] = k
last k (x ∷ xs) = last x xs

pub last-snoc : (k : ℕ) (ks : List ℕ) (x : ℕ) → last k (ks ++ (x ∷ [])) ≡ x
unfolding last
last-snoc k [] x = refl
last-snoc k (y ∷ ks) x = last-snoc y ks x

-- A page whose link is rewritten.
abbrev pub relinked : Array PendPage → ℕ → ℕ → Array PendPage
relinked f i next = update f i (record (f i) { gpu_held_next = next })

pub occ-last : (k : ℕ) (ks : List ℕ) → 1 ≤ occ (last k ks) (k ∷ ks)
unfolding last
occ-last k [] = ground (arith, ==_refl k)
occ-last k (x ∷ ks) = omega (arith, occ-last x ks)

pub apart : (k y : ℕ) (ks xs : List ℕ) → ((i : ℕ) → occ i ((k ∷ y ∷ ks) ++ xs) ≤ 1) → last y ks ≢ k
apart k y ks xs once q =
    let again : 1 ≤ occ k (y ∷ ks) = subst (λ a. 1 ≤ occ a (y ∷ ks)) q (occ-last y ks) in
    absurd (ground (arith, again, once k, occ-append k (y ∷ ks) xs, ==_refl k))

pub far :
    (k : ℕ) (ks : List ℕ) (x : ℕ) (xs : List ℕ)
    → ((i : ℕ) → occ i ((k ∷ ks) ++ (x ∷ xs)) ≤ 1)
    → (j : ℕ) → occ j xs ≢ 0
    → last k ks ≢ j
far k ks x xs once j o q =
    let there : 1 ≤ occ j (k ∷ ks) = subst (λ a. 1 ≤ occ a (k ∷ ks)) q (occ-last k ks) in
    absurd (omega (arith, there, o, once j, occ-append j (k ∷ ks) (x ∷ xs)))

-- Page `x` is cut out behind the pages `k ∷ ks`.
pub cut :
    (f : Array PendPage) (h k : ℕ) (ks : List ℕ) (x : ℕ) (xs : List ℕ)
    → ((i : ℕ) → occ i ((k ∷ ks) ++ (x ∷ xs)) ≤ 1)
    → Held f h ((k ∷ ks) ++ (x ∷ xs))
    → Held (relinked f (last k ks) (f x).gpu_held_next) h ((k ∷ ks) ++ xs)
unfolding last
cut f h k [] x xs once (e, n, (_, _, c)) = (
  e,
  n,
  subst (λ (q : PendPage). Held (relinked f k (f x).gpu_held_next) q.gpu_held_next xs)
      (sym (update_self f k _))
      (Held-cong f (relinked f k (f x).gpu_held_next) (f x).gpu_held_next xs
        (λ i o. ground (arith, once i)) c),
)
cut f h k (y ∷ ks) x xs once (e, n, c) = (
  e,
  n,
  subst (λ j. Held (relinked f (last y ks) (f x).gpu_held_next) j ((y ∷ ks) ++ xs))
      (sym (ap (λ (q : PendPage). q.gpu_held_next) (update_ne f _ (apart k y ks (x ∷ xs) once))))
      (cut f (f k).gpu_held_next y ks x xs (λ i. omega (arith, once i)) c),
)
