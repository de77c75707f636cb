-- ===== src/Shard/Pools/Slots.antt =====
-- Slots going back to the pools, with their waiters: `free_page` behind `waiter_free_chain`.
use gpu_fpga_dma.Base.{
  ℕ, ◌+◌, ◌≤◌, ◌<◌, ◌≡◌, ◌≢◌, sym, ap, List, [], arith, length, Array, update, ◌==◌, if◌then◌else◌,
  subst, update_ne,
}
use gpu_fpga_dma.Cookie.{gs_state, gs_make, gs_gen, pend_free}
use gpu_fpga_dma.Cookie.Fields.{gs_fields}
use gpu_fpga_dma.Shard.{Shard, Waiter, free_page, waiter_free_chain}
use gpu_fpga_dma.Shard.Chain.{
  Chain, Chain_cong, occ, total, total_cong, total-update, le-total, two-le-total,
}
use gpu_fpga_dma.Shard.Pools.Inv.{Pools, Ghost, node_in, chain_size, flying, Held-cong}
use gpu_fpga_dma.Shard.Pools.Waiters.{onto, occ-onto, length-onto, Freed, waiter_free_chain_lem}

-- A sum over the slots after one slot's chain is replaced.
pub total-chain :
    (cap : ℕ) (chain : Array (List ℕ)) (slot : ℕ) (xs : List ℕ) (size : List ℕ → ℕ)
    → slot < cap
    → total cap (λ i. size (update chain slot xs i)) + size (chain slot)
      ≡ total cap (λ i. size (chain i)) + size xs
total-chain cap chain slot xs size h =
    let same =
      total_cong cap (λ i. size (update chain slot xs i))
        (update (λ i. size (chain i)) slot (size xs)) (λ i _. ground arith) in
    omega (arith, same, total-update cap (λ i. size (chain i)) slot (size xs) h)

-- The chains once slot `slot` has given its waiters back.
abbrev pub emptied : Ghost → ℕ → List ℕ → Ghost
emptied g slot hand = record g {
  free = onto (g.chain slot) g.free;
  chain = update g.chain slot [];
  hand = hand;
}

module _ {cap wcap : ℕ} {s : Shard} {g : Ghost} (v : Pools cap wcap s g) where
  -- A node stands in one chain only, and there once.
  pub node_once : (w i : ℕ) → i < cap → occ w (g.chain i) + occ w g.free ≤ 1
  node_once w i h = ground (arith, v.nodes w, le-total cap (node_in g w) i h)

  pub node_apart :
      (w i j : ℕ) → i < cap → j < cap → i ≢ j → occ w (g.chain i) + occ w (g.chain j) ≤ 1
  node_apart w i j hi hj ne = ground (arith, v.nodes w, two-le-total cap (node_in g w) i j hi hj ne)

  pub chain_fits : (i : ℕ) → i < cap → length (g.chain i) + length g.free ≤ wcap
  chain_fits i h = omega (arith, v.sizes, le-total cap (chain_size g) i h)

module _ {cap wcap : ℕ} {s : Shard} {g : Ghost} (v : Pools cap wcap s g) (slot : ℕ) (hand : List ℕ)
    (below : slot < cap) (taken : occ slot s.pend_free ≡ 0)
    (moved : (i : ℕ)
      → occ i hand + (if slot == i then 1 else 0)
        ≡ occ i g.hand + (if slot == i then flying (s.pend slot) else 0)) where
  abbrev pub freed : Shard
  freed = waiter_free_chain wcap s (s.pend slot).first_waiter

  pub freed_lem : Freed s freed (g.chain slot) g.free
  freed_lem =
      waiter_free_chain_lem wcap (g.chain slot) g.free s (s.pend slot).first_waiter
        (omega (arith, chain_fits v slot below)) (v.chains slot below taken) v.free_chain
        (λ w. node_once v w slot below) v.counted
        (omega (arith, chain_fits v slot below, v.few_waiters))

  -- The shard that the walk leaves, its fields written out.
  abbrev walked : Shard
  walked = record s { warena = freed.warena; wfree = freed.wfree; wfree_n = freed.wfree_n }

  free_word : gs_state (gs_make (gs_gen (s.pend slot).genstate) pend_free) ≡ pend_free
  free_word = (gs_fields (gs_gen (s.pend slot).genstate) pend_free (omega arith)).0

  others_chain :
      (i : ℕ)
      → i < cap
      → slot ≢ i
      → occ i s.pend_free ≡ 0
      → Chain freed.warena (s.pend i).first_waiter (g.chain i)
  others_chain i h ne o =
      Chain_cong s.warena freed.warena (s.pend i).first_waiter (g.chain i)
        (λ a q.
          ap (λ (w : Waiter). w.next)
            (freed_lem.others a (omega (arith, node_apart v a slot i below h ne))))
        (v.chains i h o)

  walked-Pools : Pools cap wcap (free_page walked slot) (emptied g slot hand)
  unfolding free_page
  walked-Pools = record {
    few_slots = v.few_slots;
    few_waiters = v.few_waiters;
    free_chain = freed_lem.chain;
    chains = λ i h o.
        let ne : slot ≢ i = ground arith in
        rw (update_ne s.pend _ ne, update_ne g.chain [] ne) (others_chain i h ne (ground arith));
    bare = λ i o. ground (arith, v.bare i);
    nodes = λ w. omega (
      arith,
      v.nodes w,
      occ-onto w (g.chain slot) g.free,
      total-chain cap g.chain slot [] (occ w) below,
    );
    counted = omega (arith, freed_lem.counted, length-onto (g.chain slot) g.free);
    sizes = omega (
      arith,
      v.sizes,
      length-onto (g.chain slot) g.free,
      total-chain cap g.chain slot [] length below,
    );
    slots = λ i. ground (arith, v.slots i, moved i, free_word);
    held_chain =
        Held-cong s.pend (free_page walked slot).pend s.gpu_held g.held (λ i q. ground arith)
          v.held_chain;
  }

  -- The slot goes back to the free slots, its waiters to the free waiters.
  pub give_back-Pools : Pools cap wcap (free_page freed slot) (emptied g slot hand)
  give_back-Pools =
      subst (λ t. Pools cap wcap (free_page t slot) (emptied g slot hand)) (sym freed_lem.rest)
        walked-Pools
