-- ===== src/Setup/Fresh.antt =====
-- A shard as `co_shard_pools_alloc` of control/nvmevirt/coalesce.c leaves it.
use gpu_fpga_dma.Base.{
  ℕ, zero, suc, ◌+◌, ◌^◌, ◌≤◌, ◌<◌, ◌≡◌, ◌∙◌, refl, sym, subst, List, [], ◌∷◌, arith, length, Array,
  leb, if◌then◌else◌,
}
use native.Mathlib.Nat.{pow-le-pow_right}
use gpu_fpga_dma.Cookie.{gs_state}
use gpu_fpga_dma.Shard.{Shard, Waiter, co_nil}
use gpu_fpga_dma.Shard.Chain.{Chain, occ, total-zero}
use gpu_fpga_dma.Shard.Pools.Inv.{Pools, Ghost, one_if, node_in, chain_size}
use gpu_fpga_dma.Middle.{Params, Stats}
use gpu_fpga_dma.Shard.Pools.Account.{Account}
use gpu_fpga_dma.Middle.Keeps.Issue.{Books}
use gpu_fpga_dma.Setup.{
  Knobs, Geometry, geometry, clamp_val, pools_fill, shard_init, slots_below, next_free,
}
use gpu_fpga_dma.Setup.Power.{roundup-Rounded}
use gpu_fpga_dma.Setup.Layout.{ring_of-small}

occ-slots_below : (i n : ℕ) → occ i (slots_below n) ≡ one_if i n
unfolding slots_below
occ-slots_below i zero = ground arith
occ-slots_below i (suc n) = ground (arith, occ-slots_below i n)

-- The free waiters, from node `i` on.
abbrev pub nodes_from : ℕ → ℕ → List ℕ
nodes_from i zero = []
nodes_from i (suc n) = i ∷ nodes_from (i + 1) n

occ-nodes_from : (w i n : ℕ) → occ w (nodes_from i n) ≡ (if leb i w then one_if w (i + n) else 0)
occ-nodes_from w i zero = ground arith
occ-nodes_from w i (suc n) = ground (arith, occ-nodes_from w (i + 1) n)

length-nodes_from : (i n : ℕ) → length (nodes_from i n) ≡ n
length-nodes_from i zero = refl
length-nodes_from i (suc n) = omega (arith, length-nodes_from (i + 1) n)

-- The links of the new arena lead from node `i` to the last one.
fresh-Chain :
    (cap : ℕ) (a : Array Waiter)
    → cap < co_nil
    → ((i : ℕ) → (a i).next ≡ next_free cap i)
    → (n i : ℕ) → i + suc n ≡ cap
    → Chain a i (nodes_from i (suc n))
unfolding next_free
fresh-Chain cap a small next zero i e = (refl, ground arith, next i ∙ ground arith)
fresh-Chain cap a small next (suc n) i e = (
  refl,
  ground arith,
  subst (λ h. Chain a h (nodes_from (i + 1) (suc n))) (sym (next i ∙ ground arith))
      (fresh-Chain cap a small next n (i + 1) (omega arith)),
)

arena-Chain :
    (cap : ℕ) (a : Array Waiter)
    → 0 < cap
    → cap < co_nil
    → ((i : ℕ) → (a i).next ≡ next_free cap i)
    → Chain a 0 (nodes_from 0 cap)
arena-Chain zero a pos small next = absurd (omega (arith, pos))
arena-Chain (suc n) a pos small next = fresh-Chain (suc n) a small next n 0 (omega arith)

-- All slots and all waiters are free.
abbrev fresh_ghost : Geometry → Ghost
fresh_ghost g = record { free = nodes_from 0 g.warena_cap; chain = λ _. []; held = []; hand = [] }

module _ (g : Geometry) (base : ℕ) (to_page : ℕ → ℕ) (junk : Array Waiter) (s : Shard)
    (slots : g.pend_cap ≤ 2 ^ 16) (some_nodes : 0 < g.warena_cap)
    (nodes : g.warena_cap < co_nil) where
  fresh-Pools : Pools g.pend_cap g.warena_cap (pools_fill g base to_page junk s) (fresh_ghost g)
  unfolding pools_fill gs_state
  fresh-Pools = record {
    few_slots = slots;
    few_waiters = nodes;
    free_chain =
        arena-Chain g.warena_cap (pools_fill g base to_page junk s).warena some_nodes nodes
          (λ i. refl);
    chains = λ i h o. absurd (ground (arith, occ-slots_below i g.pend_cap));
    bare = λ i o. refl;
    nodes = λ w. ground (
      arith,
      occ-nodes_from w 0 g.warena_cap,
      total-zero g.pend_cap (node_in (fresh_ghost g) w) (λ i h. refl),
    );
    counted = sym (length-nodes_from 0 g.warena_cap);
    sizes = omega (
      arith,
      length-nodes_from 0 g.warena_cap,
      total-zero g.pend_cap (chain_size (fresh_ghost g)) (λ i h. refl),
    );
    slots = λ i. ground (arith, occ-slots_below i g.pend_cap);
    held_chain = refl;
  }

  fresh-Account : Account g.pend_cap g.warena_cap (pools_fill g base to_page junk s) [] (λ _. 0)
  unfolding pools_fill
  fresh-Account = record {
    ghost = fresh_ghost g;
    pools = fresh-Pools;
    in_hand = refl;
    waits_for = λ r. total-zero g.pend_cap (λ i. 0) (λ i h. refl);
  }

pend_cap_small : (c : Knobs) → (geometry c).pend_cap ≤ 2 ^ 16
unfolding geometry clamp_val
pend_cap_small c =
    let n = clamp_val c.staging 1 (2 ^ 16) in
    let few : n ≤ 2 ^ 16 = ground arith in
    let v = roundup-Rounded n (omega (arith, few)) in
    omega (
      arith,
      v.power,
      pow-le-pow_right {n = 2} (omega arith) {i = v.exponent} {j = 16} (v.least 16 few),
    )

warena_some :
    (c : Knobs)
    → c.ring ≤ 2 ^ 26
    → (0 < (geometry c).warena_cap) × ((geometry c).warena_cap < co_nil)
unfolding geometry
warena_some c le = let r = ring_of-small c le in (omega (arith, r), omega (arith, r))

-- With `coalesce_ring` up to 2^26, the pools that `co_shard_pools_alloc` lays out for a shard are in
-- order: the free slots and the chain of free waiters hold each slot and each node once, whatever
-- the new memory held, no request waits, and the books of the shard stand at what is posted.
pub pools_fill-Books :
    {E : Type 0} (c : Knobs) (k base : ℕ) (to_page : ℕ → ℕ) (junk : Array Waiter) (p : Params)
    (posted : E → ℕ → ℕ) (stats : Stats) (env : E)
    → c.ring ≤ 2 ^ 26
    → p.pend_cap ≡ (geometry c).pend_cap
    → p.warena_cap ≡ (geometry c).warena_cap
    → Books p posted (posted env) (record {
      shard = pools_fill (geometry c) base to_page junk (shard_init (geometry c) k);
      stats = stats;
      env = env;
    })
unfolding pools_fill shard_init
pools_fill-Books c k base to_page junk p posted stats env le slots nodes =
    let w = warena_some c le in
    record {
      waits = λ _. 0;
      account =
          rw (slots, nodes)
            (fresh-Account (geometry c) base to_page junk (shard_init (geometry c) k)
              (pend_cap_small c) w.0 w.1);
      balance = λ r. omega (arith, total-zero p.n_buckets (λ b. 0) (λ i h. refl));
    }
