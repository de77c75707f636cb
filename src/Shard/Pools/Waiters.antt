-- ===== src/Shard/Pools/Waiters.antt =====
-- The waiter pool: taking a node for a page, and giving a page's chain back.
use gpu_fpga_dma.Base.{
  ℕ, zero, suc, ◌+◌, ◌≤◌, ◌<◌, ◌^◌, ◌≡◌, ◌≢◌, refl, sym, ◌∙◌, List, [], ◌∷◌, arith, length, subst,
  update_self, update_ne, ==_refl, ne→not_==,
}
use gpu_fpga_dma.Shard.{Shard, Waiter, co_nil, free_waiter, waiter_free_chain}
use gpu_fpga_dma.Shard.Chain.{Chain, Chain-update, occ}

-- The nodes of a chain that is given back stand reversed before the free ones.
abbrev pub onto : List ℕ → List ℕ → List ℕ
onto [] free = free
onto (x ∷ xs) free = onto xs (x ∷ free)

pub occ-onto : (a : ℕ) (xs free : List ℕ) → occ a (onto xs free) ≡ occ a xs + occ a free
occ-onto a [] free = omega arith
occ-onto a (x ∷ xs) free = omega (arith, occ-onto a xs (x ∷ free))

pub length-onto : (xs free : List ℕ) → length (onto xs free) ≡ length xs + length free
length-onto [] free = omega arith
length-onto (x ∷ xs) free = omega (arith, length-onto xs (x ∷ free))

-- What `waiter_free_chain` does from `s` to `t`.
pub record Freed (s t : Shard) (xs free : List ℕ) : Type 0 where
  pub rest : t ≡ record s { warena = t.warena; wfree = t.wfree; wfree_n = t.wfree_n }
  pub chain : Chain t.warena t.wfree (onto xs free)
  pub others : (a : ℕ) → occ a xs ≡ 0 → t.warena a ≡ s.warena a
  pub ids : (a : ℕ) → (t.warena a).req_id ≡ (s.warena a).req_id
  pub counted : t.wfree_n ≡ length xs + length free

module _ (s : Shard) (x : ℕ) (xs free : List ℕ) (once : occ x xs + occ x (x ∷ free) ≤ 1) where
  apart : (occ x xs ≡ 0) × (occ x free ≡ 0)
  apart = ground (arith, ==_refl x)

  Freed-step : {t : Shard} → Freed (free_waiter s x) t xs (x ∷ free) → Freed s t (x ∷ xs) free
  Freed-step v = record {
    rest = v.rest;
    chain = v.chain;
    others = λ a o. v.others a (omega arith) ∙ update_ne s.warena _ (ground (arith, ==_refl x));
    ids = λ a. v.ids a ∙ ground arith;
    counted = omega (arith, v.counted);
  }

  free_waiter-chain :
      x ≢ co_nil → Chain s.warena s.wfree free → Chain (free_waiter s x).warena x (x ∷ free)
  free_waiter-chain ne d = (
    refl,
    ne,
    subst (λ (w : Waiter). Chain (free_waiter s x).warena w.next free)
        (sym (update_self s.warena x _)) (Chain-update s.warena x _ s.wfree free apart.1 d),
  )

chain_stop : (f : ℕ) (s : Shard) → waiter_free_chain f s co_nil ≡ s
unfolding waiter_free_chain
chain_stop zero s = refl
chain_stop (suc f) s = refl

chain_step :
    (f : ℕ) (s : Shard) (x : ℕ)
    → x ≢ co_nil
    → waiter_free_chain (suc f) s x ≡ waiter_free_chain f (free_waiter s x) (s.warena x).next
unfolding waiter_free_chain
chain_step f s x ne = rw (ne→not_== x co_nil ne, waiter_free_chain)

-- With fuel for the length of the chain, `waiter_free_chain` ends at the chain's end: it puts each
-- node of the chain on the free chain, counts it, and leaves every other node and field.
pub waiter_free_chain_lem :
    (f : ℕ) (xs free : List ℕ) (s : Shard) (head : ℕ)
    → length xs ≤ f
    → Chain s.warena head xs
    → Chain s.warena s.wfree free
    → ((w : ℕ) → occ w xs + occ w free ≤ 1)
    → s.wfree_n ≡ length free
    → length xs + length free < 2 ^ 32
    → Freed s (waiter_free_chain f s head) xs free
waiter_free_chain_lem f [] free s head l c d u n b =
    rw (c, chain_stop f s)
      (record {
        rest = refl;
        chain = d;
        others = λ a _. refl;
        ids = λ a. refl;
        counted = omega arith;
      })
waiter_free_chain_lem zero (x ∷ xs) free s head l c d u n b = absurd (omega arith)
waiter_free_chain_lem (suc f) (x ∷ xs) free s head l (e, ne, c) d u n b =
    let once : occ x xs + occ x (x ∷ free) ≤ 1 = omega (arith, u x) in
    let out = apart s x xs free once in
    rw (e, chain_step f s x ne)
      (Freed-step s x xs free once (
        waiter_free_chain_lem f xs (x ∷ free) (free_waiter s x) (s.warena x).next (omega arith)
          (Chain-update s.warena x _ (s.warena x).next xs out.0 c)
          (free_waiter-chain s x xs free once ne d) (λ w. omega (arith, u w)) (omega arith)
          (omega arith)))
