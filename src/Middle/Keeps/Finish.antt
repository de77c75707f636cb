-- ===== src/Middle/Keeps/Finish.antt =====
-- Completions, in time, late or doubled, and the timeout sweep: `nvmev_co_backend_done`,
-- `co_timeout_scan` and `co_force_complete`.
use gpu_fpga_dma.Base.{
  subst, ℕ, zero, suc, ◌+◌, ◌^◌, ◌<◌, ◌≡◌, ◌≢◌, refl, List, [], ◌∷◌, arith, ◌==◌, ltb, true, ◌&&◌,
  if◌then◌else◌, if-both, ==→eq,
}
use gpu_fpga_dma.Cookie.{
  gs_state, gs_make, gs_gen, ck_gen, ck_slot, ck_shard, pend_issued, pend_done, pend_error,
}
use gpu_fpga_dma.Cookie.Fields.{gs_fields}
use gpu_fpga_dma.Shard.{Shard}
use gpu_fpga_dma.Shard.Chain.{Chain}
use gpu_fpga_dma.Shard.Pools.Inv.{Held-cong}
use gpu_fpga_dma.Shard.Pools.Account.{Account}
use gpu_fpga_dma.Middle.{Params}
use gpu_fpga_dma.Middle.Complete.{finish, complete, complete_each, force_from}

-- The read of a slot in flight ends: the slot moves to the done list with its waiters.
pub finish_lem :
    {cap wcap : ℕ} {s : Shard} {hand : List ℕ} {waits : ℕ → ℕ} (slot gen state : ℕ)
    → Account cap wcap s hand waits
    → (gs_state (s.pend slot).genstate == pend_issued) ≡ true
    → (state < 2 ^ 8) × (state ≢ pend_issued)
    → Account cap wcap (finish s slot (gs_make gen state)) hand waits
finish_lem {s = s} slot gen state v flies (byte, ended) = record {
  ghost = v.ghost;
  pools = record {
    few_slots = v.pools.few_slots;
    few_waiters = v.pools.few_waiters;
    free_chain = v.pools.free_chain;
    chains = λ i h o.
        subst (λ a. Chain s.warena a (v.ghost.chain i)) (ground arith) (v.pools.chains i h o);
    bare = v.pools.bare;
    nodes = v.pools.nodes;
    counted = v.pools.counted;
    sizes = v.pools.sizes;
    slots = λ i. ground (arith, v.pools.slots i, word);
    held_chain =
        Held-cong s.pend (finish s slot (gs_make gen state)).pend s.gpu_held v.ghost.held
          (λ i q. ground arith) v.pools.held_chain;
  };
  in_hand = v.in_hand;
  waits_for = v.waits_for;
}
  where
    word : gs_state (gs_make gen state) ≡ state
    word = (gs_fields gen state byte).0

-- `t` with what a completion may change taken from `s`.
abbrev pub others : Shard → Shard → Shard
others s t = record t { pend = s.pend; done_list = s.done_list; last_scan_ns = s.last_scan_ns }

flies_in :
    (word gen : ℕ)
    → (word == gs_make gen pend_issued) ≡ true
    → (gs_state word == pend_issued) ≡ true
flies_in word gen e =
    rw (==→eq word (gs_make gen pend_issued) e, (gs_fields gen pend_issued (omega arith)).0) refl

outcome :
    (status : ℕ)
    → ((if status == 0 then pend_done else pend_error) < 2 ^ 8)
      × ((if status == 0 then pend_done else pend_error) ≢ pend_issued)
outcome status = (ground arith, ground arith)

module _ (p : Params) (s₀ : Shard) (waits : ℕ → ℕ) where
  -- The account stands, and nothing but completions has happened since `s₀`.
  abbrev pub InOrder : Shard → Type 0
  InOrder s = Account p.pend_cap p.warena_cap s [] waits × (others s₀ s ≡ s₀)

  pub finish-InOrder :
      (s : Shard) (slot gen state : ℕ)
      → InOrder s
      → (gs_state (s.pend slot).genstate == pend_issued) ≡ true
      → (state < 2 ^ 8) × (state ≢ pend_issued)
      → InOrder (finish s slot (gs_make gen state))
  finish-InOrder s slot gen state v flies ended = (finish_lem slot gen state v.0 flies ended, v.1)

  pub complete-InOrder :
      (s : Shard) (cookie status : ℕ) → InOrder s → InOrder (complete p s cookie status)
  unfolding complete
  complete-InOrder s cookie status v =
      let slot = ck_slot cookie in
      let gen = ck_gen cookie in
      if-both InOrder (ltb slot p.pend_cap && ((s.pend slot).genstate == gs_make gen pend_issued)) _
        _
        (λ e.
          finish-InOrder s slot gen (if status == 0 then pend_done else pend_error) v
            (flies_in (s.pend slot).genstate gen (ground arith)) (outcome status))
        (λ _. v)

  pub complete_each-InOrder :
      (cs : List (ℕ × ℕ)) (s : Shard) → InOrder s → InOrder (complete_each p s cs)
  unfolding complete_each
  complete_each-InOrder [] s v = v
  complete_each-InOrder ((cookie, status) ∷ cs) s v = complete_each-InOrder cs _ (
      if-both InOrder ((ck_shard cookie == s.id) && ltb s.id p.n_shards) _ _
        (λ _. complete-InOrder s cookie status v) (λ _. v))

  pub force_from-InOrder : (f i : ℕ) (s : Shard) → InOrder s → InOrder (force_from f i s)
  unfolding force_from
  force_from-InOrder zero i s v = v
  force_from-InOrder (suc f) i s v = force_from-InOrder f (i + 1) _ (
      if-both InOrder (gs_state (s.pend i).genstate == pend_issued) _ _
        (λ e.
          finish-InOrder s i (gs_gen (s.pend i).genstate) pend_error v e
            (omega arith, ground arith))
        (λ _. v))
