-- ===== src/Middle/Keeps/Fill.antt =====
-- A run's page: `fill_page`, which `co_flush_issue` does before a read.
use gpu_fpga_dma.Base.{
  ℕ, ◌≤◌, ◌<◌, ◌≡◌, refl, ap, ◌∙◌, List, ◌∷◌, arith, length, subst, update_self,
}
use gpu_fpga_dma.Base.Words.{u16}
use gpu_fpga_dma.Shard.{Shard, Ent, PendPage, set_page}
use gpu_fpga_dma.Shard.Chain.{Chain, occ}
use gpu_fpga_dma.Shard.Pools.Inv.{flying, Held-cong}
use gpu_fpga_dma.Shard.Pools.Account.{Account, restore, asks}
use gpu_fpga_dma.Middle.{Params}
use gpu_fpga_dma.Middle.Issue.{add_waiters, fill_page}
use gpu_fpga_dma.Middle.Keeps.Take.{
  took, pend_alloc-took, took-Pools, took_flies, top_below, top_bare, top_once,
}
use gpu_fpga_dma.Middle.Keeps.Join.{Filled, add_waiters_lem, also, split_off, wants}

-- The count of a run, noted in its page.
abbrev noted : Shard → ℕ → ℕ → Shard
noted s slot n = set_page s slot (record (s.pend slot) { n_waiters = n })

noted-Account :
    {cap wcap : ℕ} {s : Shard} {hand : List ℕ} {waits : ℕ → ℕ} (slot n : ℕ)
    → Account cap wcap s hand waits
    → Account cap wcap (noted s slot n) hand waits
noted-Account {s = s} slot n v = record {
  ghost = v.ghost;
  pools = record {
    few_slots = v.pools.few_slots;
    few_waiters = v.pools.few_waiters;
    free_chain = v.pools.free_chain;
    chains = λ i h o.
        subst (λ a. Chain s.warena a (v.ghost.chain i)) (ground arith) (v.pools.chains i h o);
    bare = v.pools.bare;
    nodes = v.pools.nodes;
    counted = v.pools.counted;
    sizes = v.pools.sizes;
    slots = λ i. ground (arith, v.pools.slots i);
    held_chain =
        Held-cong s.pend (noted s slot n).pend s.gpu_held v.ghost.held (λ i q. ground arith)
          v.pools.held_chain;
  };
  in_hand = v.in_hand;
  waits_for = v.waits_for;
}

-- A run has its page: its slot is in flight, off the free slots, and its entries wait there.
pub record Posed (cap wcap : ℕ) (s : Shard) (out : ℕ × Shard) (run : List Ent) (hand : List ℕ)
    (waits : ℕ → ℕ) : Type 0 where
  pub account : Account cap wcap out.1 hand (also waits run)
  pub mine : (r : ℕ) → asks r (out.1).warena (account.ghost.chain out.0) ≡ wants r run
  pub below : out.0 < cap
  pub taken : occ out.0 out.1.pend_free ≡ 0
  pub flight : flying (out.1.pend out.0) ≡ 1
  pub rest : restore s out.1 ≡ s

fill_page_filled :
    (p : Params) (s : Shard) (tag dev now : ℕ) (run : List Ent) (slot : ℕ) (more : List ℕ)
    → s.pend_free ≡ slot ∷ more
    → fill_page p s tag dev now run ≡ (
      slot,
      noted (add_waiters p slot (took s slot more tag dev now) run) slot (u16 (length run)),
    )
unfolding fill_page
fill_page_filled p s tag dev now run slot more e =
    rw (pend_alloc-took s slot more tag dev now e) refl

module _ (p : Params) {cap wcap : ℕ} {s : Shard} {hand : List ℕ} {waits : ℕ → ℕ}
    (v : Account cap wcap s hand waits) (tag dev now : ℕ) (run : List Ent)
    (fits : length run ≤ s.wfree_n) where
  Filled-at :
      (slot : ℕ) (more : List ℕ)
      → s.pend_free ≡ slot ∷ more
      → Filled cap wcap slot
          (took s slot more tag dev now)
          (add_waiters p slot (took s slot more tag dev now) run)
          run
          hand
          (λ _. 0)
          waits
  Filled-at slot more e =
      add_waiters_lem p cap wcap slot (top_below v.pools slot more e) hand run
        (took s slot more tag dev now) (λ _. 0) waits
        (record {
          ghost = v.ghost;
          pools = took-Pools v.pools slot more e tag dev now;
          in_hand = v.in_hand;
          waits_for = v.waits_for;
        })
        (λ r. ap (asks r (took s slot more tag dev now).warena) (top_bare v.pools slot more e))
        (took_flies s slot more tag dev now) fits

  Posed-at :
      (slot : ℕ) (more : List ℕ)
      → s.pend_free ≡ slot ∷ more
      → Posed cap wcap s
          (
            slot,
            noted (add_waiters p slot (took s slot more tag dev now) run) slot (u16 (length run)),
          )
          run
          hand
          waits
  unfolding noted-Account
  Posed-at slot more e =
      let f = Filled-at slot more e in
      let t = add_waiters p slot (took s slot more tag dev now) run in
      let free_same : t.pend_free ≡ more = ap (λ (u : Shard). u.pend_free) f.rest in
      record {
        account = noted-Account slot (u16 (length run)) f.account;
        mine = λ r. omega (arith, f.mine r);
        below = top_below v.pools slot more e;
        taken = rw free_same (top_once v.pools slot more e).0;
        flight =
            ap (λ (q : PendPage). flying q) (update_self t.pend slot _)
            ∙ f.word
            ∙ took_flies s slot more tag dev now;
        rest = ap (λ u. restore s (noted u slot (u16 (length run)))) f.rest;
      }

  -- A free slot and enough free nodes: the run gets its page.
  pub fill_page_lem :
      1 ≤ length s.pend_free → Posed cap wcap s (fill_page p s tag dev now run) run hand waits
  fill_page_lem some_free =
      let q = split_off s.pend_free some_free in
      rw (fill_page_filled p s tag dev now run q.head q.tail q.is) (Posed-at q.head q.tail q.is)
