-- ===== src/Shard/Pools/Inv.antt =====
-- The pools of a shard, with the chains that its links spell out: `free` from `wfree`, `chain i`
-- from the page of slot `i`, and `held` from `gpu_held`.
use gpu_fpga_dma.Base.{
  ℕ, ◌+◌, ◌≤◌, ◌<◌, ◌^◌, ◌≡◌, ◌≢◌, sym, List, [], ◌∷◌, arith, length, Array, ◌==◌, ltb,
  if◌then◌else◌, subst,
}
use gpu_fpga_dma.Cookie.{gs_state, pend_issued}
use gpu_fpga_dma.Shard.{Shard, PendPage, co_nil}
use gpu_fpga_dma.Shard.Chain.{Chain, occ, total}

-- From `h` the `gpu_held_next` fields lead through the slots `xs` to `CO_NIL`.
abbrev pub Held : Array PendPage → ℕ → List ℕ → Type 0
Held f h [] = h ≡ co_nil
Held f h (x ∷ xs) = (h ≡ x) × (x ≢ co_nil) × Held f (f x).gpu_held_next xs

-- A change that spares the links of the held pages leaves the chain.
pub Held-cong :
    (f g : Array PendPage) (h : ℕ) (xs : List ℕ)
    → ((i : ℕ) → occ i xs ≢ 0 → (g i).gpu_held_next ≡ (f i).gpu_held_next)
    → Held f h xs
    → Held g h xs
Held-cong f g h [] same c = c
Held-cong f g h (x ∷ xs) same (e, n, c) = (
  e,
  n,
  subst (λ j. Held g j xs) (sym (same x (ground arith)))
      (Held-cong f g (f x).gpu_held_next xs (λ i o. same i (ground arith)) c),
)

-- 1 while the slot's read is in flight.
abbrev pub flying : PendPage → ℕ
flying p = if gs_state p.genstate == pend_issued then 1 else 0

abbrev pub one_if : ℕ → ℕ → ℕ
one_if i n = if ltb i n then 1 else 0

-- What the links of a shard stand for; `hand` are slots that a loop has taken off a list.
pub record Ghost : Type 0 where
  pub free : List ℕ
  pub chain : Array (List ℕ)
  pub held : List ℕ
  pub hand : List ℕ

-- How often node `w` stands in the chain of each slot.
abbrev pub node_in : Ghost → ℕ → Array ℕ
node_in g w i = occ w (g.chain i)

abbrev pub chain_size : Ghost → Array ℕ
chain_size g i = length (g.chain i)

-- The places of slot `i`.
abbrev pub places : Shard → Ghost → ℕ → ℕ
places s g i =
    occ i s.pend_free
    + occ i s.done_list
    + occ i s.pend_return
    + occ i g.held
    + occ i g.hand
    + flying (s.pend i)

pub record Pools (cap wcap : ℕ) (s : Shard) (g : Ghost) : Type 0 where
  pub few_slots : cap ≤ 2 ^ 16
  pub few_waiters : wcap < co_nil
  pub free_chain : Chain s.warena s.wfree g.free
  pub chains :
      (i : ℕ) → i < cap → occ i s.pend_free ≡ 0 → Chain s.warena (s.pend i).first_waiter (g.chain i)
  pub bare : (i : ℕ) → occ i s.pend_free ≢ 0 → g.chain i ≡ []
  pub nodes : (w : ℕ) → occ w g.free + total cap (node_in g w) ≡ one_if w wcap
  pub counted : s.wfree_n ≡ length g.free
  pub sizes : length g.free + total cap (chain_size g) ≡ wcap
  -- Every slot is in one place: free, in flight, finished, given back, held for the GPU, or in hand.
  pub slots : (i : ℕ) → places s g i ≡ one_if i cap
  pub held_chain : Held s.pend s.gpu_held g.held
