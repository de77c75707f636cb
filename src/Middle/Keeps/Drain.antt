-- ===== src/Middle/Keeps/Drain.antt =====
-- `co_drain_returns`: the returned pages go back to the pools, and no request with them.
use gpu_fpga_dma.Base.{
  ℕ, ◌+◌, ◌<◌, ◌≡◌, ◌≢◌, refl, sym, ap, ◌∙◌, List, [], ◌∷◌, arith, ◌==◌, if◌then◌else◌, subst,
  ==_refl,
}
use gpu_fpga_dma.Shard.{Shard}
use gpu_fpga_dma.Shard.Chain.{occ}
use gpu_fpga_dma.Shard.Pools.Inv.{Ghost, flying}
use gpu_fpga_dma.Shard.Pools.Account.{Account, restore, spent, waiting-live_cong}
use gpu_fpga_dma.Middle.{Params, Mid}
use gpu_fpga_dma.Middle.Issue.{give_back}
use gpu_fpga_dma.Middle.Reap.{drain_pages, drain_returns}
use gpu_fpga_dma.Middle.Keeps.Back.{give_back_lem, give_back_rest, none_due}
use gpu_fpga_dma.Middle.Keeps.Issue.{Books, unissued, binned}

-- From `s` to `t` pages went back to the pools.
record Drained (p : Params) (s t : Shard) (waits : ℕ → ℕ) : Type 0 where
  account : Account p.pend_cap p.warena_cap t [] waits
  rest : restore s t ≡ s

module _ (p : Params) (waits : ℕ → ℕ) where
  module _ {s : Shard} (slot : ℕ) (slots : List ℕ)
      (v : Account p.pend_cap p.warena_cap s (slot ∷ slots) waits) where
    in_hand :
        (slot < p.pend_cap)
        × (occ slot s.pend_free ≡ 0)
        × (spent s v.ghost slot ≢ 0)
        × (flying (s.pend slot) ≡ 0)
    in_hand = ground (arith, v.pools.slots slot, ap (occ slot) v.in_hand, ==_refl slot)

    leaves :
        (i : ℕ)
        → occ i slots + (if slot == i then 1 else 0)
          ≡ occ i (slot ∷ slots) + (if slot == i then flying (s.pend slot) else 0)
    leaves i = ground (arith, in_hand.3)

    one_back : Account p.pend_cap p.warena_cap (give_back p s slot) slots waits
    one_back =
        let w = give_back_lem p v slot in_hand.0 in_hand.1 slots leaves in
        record {
          ghost = w.ghost;
          pools = w.pools;
          in_hand = w.in_hand;
          waits_for =
              λ r. omega (arith, w.waits_for r, none_due p v slot in_hand.0 in_hand.1 in_hand.2 r);
        }

    one_back_rest : restore s (give_back p s slot) ≡ s
    one_back_rest = give_back_rest p v slot in_hand.0 in_hand.1 slots leaves

  drain_pages_lem :
      (slots : List ℕ) (s : Shard)
      → Account p.pend_cap p.warena_cap s slots waits
      → Drained p s (drain_pages p s slots) waits
  unfolding drain_pages
  drain_pages_lem [] s v = record { account = v; rest = refl }
  drain_pages_lem (slot ∷ slots) s v =
      let w = drain_pages_lem slots (give_back p s slot) (one_back slot slots v) in
      record { account = w.account; rest = ap (restore s) w.rest ∙ one_back_rest slot slots v }

  -- The returned pages in the hand of the loop.
  take_returns :
      (s : Shard)
      → Account p.pend_cap p.warena_cap s [] waits
      → Account p.pend_cap p.warena_cap (record s { pend_return = [] }) s.pend_return waits
  take_returns s v =
      let g : Ghost = record (v.ghost) { hand = s.pend_return } in
      let same : (i : ℕ) → spent (record s { pend_return = [] }) g i ≡ spent s v.ghost i =
        λ i. omega (arith, ap (occ i) v.in_hand) in
      record {
        ghost = g;
        pools = record {
          few_slots = v.pools.few_slots;
          few_waiters = v.pools.few_waiters;
          free_chain = v.pools.free_chain;
          chains = v.pools.chains;
          bare = v.pools.bare;
          nodes = v.pools.nodes;
          counted = v.pools.counted;
          sizes = v.pools.sizes;
          slots = λ i. omega (arith, v.pools.slots i, ap (occ i) v.in_hand);
          held_chain = v.pools.held_chain;
        };
        in_hand = refl;
        waits_for = λ r.
            waiting-live_cong p.pend_cap s.warena (spent s v.ghost) _ v.ghost.chain r same
            ∙ v.waits_for r;
      }

-- `co_drain_returns`
pub drain_returns-Books :
    {E : Type 0} (p : Params) (posted : E → ℕ → ℕ) (n : ℕ → ℕ) (m : Mid E)
    → Books p posted n m
    → Books p posted n (record m { shard = drain_returns p m.shard })
unfolding drain_returns
drain_returns-Books p posted n m v =
    let s = record (m.shard) { pend_return = [] } in
    let d =
      drain_pages_lem p v.waits (m.shard).pend_return s
        (take_returns p v.waits m.shard v.account) in
    record {
      waits = v.waits;
      account = d.account;
      balance = λ r.
          subst (λ (t : Shard). unissued t r + binned p t r + v.waits r + posted m.env r ≡ n r)
            (sym d.rest) (v.balance r);
    }
