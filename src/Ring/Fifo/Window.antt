-- ===== src/Ring/Fifo/Window.antt =====
-- The invariant of the request ring, and which positions share a cell.
use gpu_fpga_dma.Base.{
  ℕ, zero, suc, ◌+◌, ◌-◌, ◌%◌, ◌^◌, ◌≤◌, ◌<◌, ◌≡◌, ◌≢◌, refl, sym, ap, ap₂, ◌∙◌, some, Bool, true,
  false, List, [], ◌∷◌, ◌++◌, arith, Array, bit_and,
}
use gpu_fpga_dma.Base.Bits.{bit_and_mask, one-le-pow}
use gpu_fpga_dma.Ring.Queue.{cell, lap_apart, cell-wrap, pow-le}
use gpu_fpga_dma.Ring.{Req, push_cell, rq_cell}
use gpu_fpga_dma.Ring.Producers.{Phase, unborn, spinning, written, returned, Call, System}
use native.Mathlib.Decide.{dec_lt}
use native.Mathlib.Nat.{mod-lt, add-mod-mod}

-- The requests of the first `n` calls.
unfoldable pub requests : Array Call → ℕ → List Req
requests f zero = []
requests f (suc n) = requests f n ++ ((f n).req ∷ [])

pub requests_cong :
    (f g : Array Call) (n : ℕ)
    → ((j : ℕ) → j < n → (f j).req ≡ (g j).req)
    → requests f n ≡ requests g n
unfolding requests
requests_cong f g zero h = refl
requests_cong f g (suc n) h =
    ap₂ (λ xs x. xs ++ (x ∷ [])) (requests_cong f g n (λ j lt. h j (omega arith)))
      (h n (omega arith))

-- The sequence number in the cell of position `j`, while `j` is the next position to use it.
abbrev pub wanted : Phase → ℕ → ℕ
wanted returned j = (j + 1) % 2 ^ 32
wanted _ j = j % 2 ^ 32

-- The calls whose payload is in its cell.
abbrev pub is_paid : Phase → Bool
is_paid written = true
is_paid returned = true
is_paid _ = false

pub record Inv (k : ℕ) (s : System) : Type 0 where
  pub two_cells : 1 ≤ k
  pub narrow : k ≤ 31
  pub entries : s.ring.rq_entries ≡ 2 ^ k
  pub mask : s.ring.rq_mask ≡ 2 ^ k - 1
  pub head : s.ring.rq_head ≡ s.started % 2 ^ 32
  pub tail : s.ring.rq_tail ≡ s.n_taken % 2 ^ 32
  pub behind : s.n_taken ≤ s.started
  pub few : s.started < s.n_taken + 2 ^ 32
  pub fresh : (j : ℕ) → s.started ≤ j → (s.calls j).phase ≡ unborn
  pub pos : (j : ℕ) → j < s.started → (s.calls j).pos ≡ j % 2 ^ 32
  pub past : (j : ℕ) → j < s.n_taken → (s.calls j).phase ≡ returned
  pub early : (j : ℕ) → s.n_taken + 2 ^ k ≤ j → j < s.started → (s.calls j).phase ≡ spinning
  pub cells :
      (j : ℕ)
      → s.n_taken ≤ j
      → j < s.n_taken + 2 ^ k
      → s.ring.rq_seq (cell k j) ≡ wanted (s.calls j).phase j
  pub paid :
      (j : ℕ)
      → s.n_taken ≤ j
      → j < s.n_taken + 2 ^ k
      → is_paid (s.calls j).phase ≡ true
      → s.ring.rq (cell k j) ≡ (s.calls j).req
  pub copying :
      (q : Req)
      → s.copied ≡ some q
      → ((s.calls s.n_taken).phase ≡ returned) × (q ≡ (s.calls s.n_taken).req)
  pub got : s.taken ≡ requests s.calls s.n_taken

-- Two positions of one lap have different cells.
pub cell_ne :
    (k t i j : ℕ) → t ≤ i → i < t + 2 ^ k → t ≤ j → j < t + 2 ^ k → i ≢ j → cell k i ≢ cell k j
cell_ne k t i j a b c d ne e = elim (dec_lt i j) [
  | yes lt ↦ absurd (omega (arith, lap_apart (2 ^ k) i j (one-le-pow k) e lt))
  | no ge ↦ absurd (omega (arith, lap_apart (2 ^ k) j i (one-le-pow k) (sym e) (omega arith)))
]

-- Every position has a representative in the lap from `t` on, with its cell.
pub lap_of : ℕ → ℕ → ℕ → ℕ
lap_of k t i = t + (i - t) % 2 ^ k

pub cell-lap_of : (k t i : ℕ) → t ≤ i → cell k (lap_of k t i) ≡ cell k i
unfolding lap_of
cell-lap_of k t i h = add-mod-mod t (i - t) (2 ^ k) ∙ ap (cell k) (omega arith)

pub lap_of_bounds : (k t i : ℕ) → (t ≤ lap_of k t i) × (lap_of k t i < t + 2 ^ k)
unfolding lap_of
lap_of_bounds k t i = omega (arith, one-le-pow k, mod-lt (i - t) {m = 2 ^ k} (one-le-pow k))

-- The word of a position is not that of a later one, two or more away.
words_differ : (p : Phase) (i j : ℕ) → i + 2 ≤ j → j < i + 2 ^ 32 → wanted p i ≢ j % 2 ^ 32
words_differ returned i j a b e = omega arith
words_differ _ i j a b e = omega arith

module _ {k : ℕ} {s : System} (v : Inv k s) where
  -- The cell that the consumer reads.
  pub rq_cell-cell : rq_cell s.ring ≡ cell k s.n_taken
  rq_cell-cell =
      ap₂ bit_and v.tail v.mask
      ∙ bit_and_mask k (s.n_taken % 2 ^ 32)
      ∙ cell-wrap k s.n_taken (omega (arith, v.narrow))

  -- The cell that call `j` works on.
  pub push_cell-cell : (j : ℕ) → j < s.started → push_cell s.ring (s.calls j).pos ≡ cell k j
  push_cell-cell j lt =
      ap₂ (λ p n. bit_and p (n - 1)) (v.pos j lt) v.entries
      ∙ bit_and_mask k (j % 2 ^ 32)
      ∙ cell-wrap k j (omega (arith, v.narrow))

  pub two-le : 2 ≤ 2 ^ k
  two-le = pow-le 1 k v.two_cells

  -- A call that has begun and not yet returned to its caller is not behind the consumer.
  pub begun : (j : ℕ) (p : Phase) → (s.calls j).phase ≡ p → p ≢ unborn → j < s.started
  begun j p e ne = elim (dec_lt j s.started) [
    | yes lt ↦ lt
    | no ge ↦ absurd (ne (sym e ∙ v.fresh j (omega arith)))
  ]

  pub not_past : (j : ℕ) (p : Phase) → (s.calls j).phase ≡ p → p ≢ returned → s.n_taken ≤ j
  not_past j p e ne = elim (dec_lt j s.n_taken) [
    | yes lt ↦ absurd (ne (sym e ∙ v.past j lt))
    | no ge ↦ omega arith
  ]

  -- A call past its spin works in the present lap.
  pub not_early :
      (j : ℕ) (p : Phase)
      → (s.calls j).phase ≡ p
      → p ≢ unborn
      → p ≢ spinning
      → j < s.n_taken + 2 ^ k
  not_early j p e nu ns = elim (dec_lt j (s.n_taken + 2 ^ k)) [
    | yes lt ↦ lt
    | no ge ↦ absurd (ns (sym e ∙ v.early j (omega arith) (begun j p e nu)))
  ]

  -- The spin ends only in the present lap: a sequence number of another lap is another word.
  pub spin_ends :
      (j : ℕ)
      → s.n_taken ≤ j
      → j < s.started
      → s.ring.rq_seq (cell k j) ≡ j % 2 ^ 32
      → j < s.n_taken + 2 ^ k
  spin_ends j lo lt e = elim (dec_lt j (s.n_taken + 2 ^ k)) [
    | yes here ↦ here
    | no far ↦ absurd (
        words_differ (s.calls i).phase i j (omega (arith, lap (omega arith), two-le))
          (omega (arith, v.few, (lap_of_bounds k s.n_taken j).0)) (sym word ∙ e))
  ]
    where
      i : ℕ
      i = lap_of k s.n_taken j

      word : s.ring.rq_seq (cell k j) ≡ wanted (s.calls i).phase i
      word =
          ap s.ring.rq_seq (sym (cell-lap_of k s.n_taken j lo))
          ∙ v.cells i (lap_of_bounds k s.n_taken j).0 (lap_of_bounds k s.n_taken j).1

      lap : s.n_taken + 2 ^ k ≤ j → i + 2 ^ k ≤ j
      lap far =
          lap_apart (2 ^ k) i j (one-le-pow k) (cell-lap_of k s.n_taken j lo)
            (omega (arith, (lap_of_bounds k s.n_taken j).1))
