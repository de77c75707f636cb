-- ===== src/Ring/Queue.antt =====
-- What a ring of `2 ^ k` cells holds between two 32-bit cursors, for the completion ring and for
-- the descriptor ring of GPU-pull delivery.
use gpu_fpga_dma.Base.{
  ℕ, zero, suc, ◌+◌, ◌-◌, ◌%◌, ◌^◌, ◌≤◌, ◌<◌, bit_and, ◌≡◌, ◌≢◌, refl, sym, ap, ap₂, ◌∙◌, List, [],
  ◌∷◌, ◌++◌, arith, length, drop, Array, update, update_ne,
}
use gpu_fpga_dma.Base.Bits.{bit_and_mask, mod_mod_pow, one-le-pow}
use gpu_fpga_dma.Base.Words.{add32}
use native.Mathlib.Nat.{div-add-mod, add-zero, pow-le-pow_right}

-- The cell of a cursor, in a ring of `2 ^ k` cells.
abbrev pub cell : ℕ → ℕ → ℕ
cell k pos = pos % 2 ^ k

pub bit_and-cell : (k pos : ℕ) → bit_and pos (2 ^ k - 1) ≡ cell k pos
bit_and-cell = bit_and_mask

-- Two positions with one cell are at least a lap apart.
pub lap_apart : (n i j : ℕ) → 0 < n → i % n ≡ j % n → i < j → i + n ≤ j
lap_apart n i j hn e lt = let di = div-add-mod i n in let dj = div-add-mod j n in grind arith

-- Wrapping a position to 32 bits keeps its cell.
pub cell-wrap : (k pos : ℕ) → k ≤ 32 → cell k (pos % 2 ^ 32) ≡ cell k pos
cell-wrap k pos h = mod_mod_pow k 32 pos h

pub pow-le : (k m : ℕ) → k ≤ m → 2 ^ k ≤ 2 ^ m
pow-le k m h = pow-le-pow_right {n = 2} (omega arith) h

pub cell-add32 : (k a b : ℕ) → k ≤ 32 → cell k (add32 a b) ≡ cell k (a + b)
cell-add32 k a b h = cell-wrap k (a + b) h

cells_apart : (k t n : ℕ) → k ≤ 32 → suc n < 2 ^ k → cell k (add32 t (suc n)) ≢ cell k t
cells_apart k t n hk hn e =
    let lap =
      lap_apart (2 ^ k) t (t + suc n) (one-le-pow k) (sym e ∙ cell-add32 k t (suc n) hk)
        (omega arith) in
    omega arith

module _ {ℓ} {A : Type ℓ} (k : ℕ) where
  -- The `n` items from cursor `t` on.
  unfoldable pub items : Array A → ℕ → ℕ → List A
  items f zero t = []
  items f (suc n) t = f (cell k t) ∷ items f n (add32 t 1)

  pub length-items : (f : Array A) (n t : ℕ) → length (items f n t) ≡ n
  unfolding items
  length-items f zero t = refl
  length-items f (suc n) t = ap suc (length-items f n (add32 t 1))

  -- A write just past the items, in a ring that is not full, adds one item at the end.
  pub items-push :
      (f : Array A) (n t h : ℕ) (a : A)
      → k ≤ 32
      → n < 2 ^ k
      → h ≡ add32 t n
      → items (update f (cell k h) a) (suc n) t ≡ items f n t ++ (a ∷ [])
  unfolding items
  items-push f zero t h a hk hn e =
      let same : cell k h ≡ cell k t =
        ap (cell k) e ∙ cell-add32 k t 0 hk ∙ ap (cell k) (add-zero t) in
      ground (arith, same)
  items-push f (suc n) t h a hk hn e =
      let other = cells_apart k t n hk (omega arith) in
      let away : cell k h ≢ cell k t = λ q. other (ap (cell k) (sym e) ∙ q) in
      ap₂ ◌∷◌ (update_ne f a away)
        (items-push f n (add32 t 1) h a hk (omega arith) (e ∙ omega arith))

  -- Moving the reading cursor over `m` items drops them.
  pub items-drop :
      (f : Array A) (m n t : ℕ)
      → m ≤ n
      → t < 2 ^ 32
      → items f (n - m) (add32 t m) ≡ drop m (items f n t)
  unfolding items
  items-drop f zero n t h w = ap₂ (items f) (omega arith) (omega arith)
  items-drop f (suc m) zero t h w = absurd (omega arith)
  items-drop f (suc m) (suc n) t h w =
      ap₂ (items f) (omega arith) (omega arith)
      ∙ items-drop f m n (add32 t 1) (omega arith) (omega arith)
