-- ===== src/Middle/Keeps/Take.antt =====
-- `pend_alloc` and the waiters that `co_flush_issue` adds to the page.
use gpu_fpga_dma.Base.{
  ℕ, ◌+◌, ◌<◌, ◌≡◌, ◌≢◌, refl, sym, ap, ◌∙◌, List, [], ◌∷◌, arith, length, update, ◌==◌,
  if◌then◌else◌, subst, update_self, update_ne, ==_refl, ne→not_==,
}
use gpu_fpga_dma.Base.Words.{sub32, add32}
use gpu_fpga_dma.Cookie.{gs_state, gs_make, gs_gen, pend_issued}
use gpu_fpga_dma.Cookie.Fields.{gs_fields}
use gpu_fpga_dma.Shard.{Shard, Ent, Waiter, co_nil, set_page, armed, pend_alloc, waiter_alloc}
use gpu_fpga_dma.Shard.Chain.{Chain, Chain-update, occ}
use gpu_fpga_dma.Shard.Pools.Inv.{Pools, Ghost, flying, Held-cong}
use gpu_fpga_dma.Shard.Pools.Slots.{total-chain, node_once, chain_fits}
use native.Mathlib.Decide.{ℕ_discrete}
use gpu_fpga_dma.Middle.{Params}
use gpu_fpga_dma.Middle.Issue.{off_in_page, add_waiter}

-- The shard once `pend_alloc` has taken the top slot.
abbrev pub took : Shard → ℕ → List ℕ → ℕ → ℕ → ℕ → Shard
took s slot rest tag dev now =
    set_page (record s { pend_free = rest }) slot (armed s slot tag dev now)

pub pend_alloc-took :
    (s : Shard) (slot : ℕ) (rest : List ℕ) (tag dev now : ℕ)
    → s.pend_free ≡ slot ∷ rest
    → pend_alloc s tag dev now ≡ (slot, took s slot rest tag dev now)
unfolding pend_alloc
pend_alloc-took s slot rest tag dev now e = rw (e, pend_alloc)

module _ {cap wcap : ℕ} {s : Shard} {g : Ghost} (v : Pools cap wcap s g) (slot : ℕ) (rest : List ℕ)
    (top : s.pend_free ≡ slot ∷ rest) where
  abbrev was : (i : ℕ) → occ i s.pend_free ≡ (if slot == i then 1 else 0) + occ i rest
  was i = ap (occ i) top

  pub top_below : slot < cap
  top_below = ground (arith, v.slots slot, was slot, ==_refl slot)

  pub top_bare : g.chain slot ≡ []
  top_bare = v.bare slot (ground (arith, was slot, ==_refl slot))

  pub top_once : (occ slot rest ≡ 0) × (flying (s.pend slot) ≡ 0)
  top_once = ground (arith, v.slots slot, was slot, ==_refl slot)

  new_chain :
      (tag dev now i : ℕ)
      → i < cap
      → occ i rest ≡ 0
      → Chain s.warena ((took s slot rest tag dev now).pend i).first_waiter (g.chain i)
  new_chain tag dev now i h o = elim (ℕ_discrete slot i) [
    | yes e ↦ rw (← e, update_self s.pend slot (armed s slot tag dev now), top_bare) refl
    | no ne ↦
        rw (update_ne s.pend (armed s slot tag dev now) ne) (v.chains i h (ground (arith, was i)))
  ]

  -- The slot is in flight, with no waiters yet.
  pub took-Pools : (tag dev now : ℕ) → Pools cap wcap (took s slot rest tag dev now) g
  took-Pools tag dev now = record {
    few_slots = v.few_slots;
    few_waiters = v.few_waiters;
    free_chain = v.free_chain;
    chains = λ i h o. new_chain tag dev now i h o;
    bare = λ i o. v.bare i (ground (arith, was i));
    nodes = v.nodes;
    counted = v.counted;
    sizes = v.sizes;
    slots = λ i. ground (arith, v.slots i, was i, top_once, word);
    held_chain =
        Held-cong s.pend (took s slot rest tag dev now).pend s.gpu_held g.held (λ i q. ground arith)
          v.held_chain;
  }
    where
      word : gs_state (gs_make (add32 (gs_gen (s.pend slot).genstate) 1) pend_issued) ≡ pend_issued
      word = (gs_fields (add32 (gs_gen (s.pend slot).genstate) 1) pend_issued (omega arith)).0

pub took_flies :
    (s : Shard) (slot : ℕ) (rest : List ℕ) (tag dev now : ℕ)
    → flying ((took s slot rest tag dev now).pend slot) ≡ 1
took_flies s slot rest tag dev now =
    let word = (gs_fields (add32 (gs_gen (s.pend slot).genstate) 1) pend_issued (omega arith)).0 in
    rw (update_self s.pend slot (armed s slot tag dev now), word) refl

-- The waiter that an entry becomes.
abbrev pub waiter_of : Params → Shard → ℕ → Ent → Waiter
waiter_of p s slot e = record {
  req_id = e.req_id;
  dst_phys = e.dst_phys;
  off_in_page = off_in_page p e.node_id;
  next = (s.pend slot).first_waiter;
}

-- The shard once node `w`, the head of the free chain, waits for the page of `slot`.
abbrev pub joined : Params → Shard → ℕ → Ent → ℕ → Shard
joined p s slot e w = record s {
  wfree = (s.warena w).next;
  wfree_n = sub32 s.wfree_n 1;
  pend = update s.pend slot (record (s.pend slot) { first_waiter = w });
  warena = update s.warena w (waiter_of p s slot e);
}

add_waiter_head :
    (p : Params) (slot : ℕ) (s : Shard) (e : Ent)
    → s.wfree ≢ co_nil
    → add_waiter p slot s e ≡ joined p s slot e s.wfree
unfolding add_waiter
add_waiter_head p slot s e ne = rw (ne→not_== s.wfree co_nil ne, waiter_alloc)

pub add_waiter-joined :
    (p : Params) (slot : ℕ) (s : Shard) (e : Ent) (w : ℕ)
    → s.wfree ≡ w
    → w ≢ co_nil
    → add_waiter p slot s e ≡ joined p s slot e w
add_waiter-joined p slot s e w h ne =
    add_waiter_head p slot s e (rw h ne) ∙ ap (joined p s slot e) h

-- The chains once node `w` has joined the chain of `slot`.
abbrev pub joins : Ghost → ℕ → ℕ → List ℕ → Ghost
joins g slot w rest = record g { free = rest; chain = update g.chain slot (w ∷ g.chain slot) }

module _ {cap wcap : ℕ} {s : Shard} {g : Ghost} (v : Pools cap wcap s g) (p : Params) (slot : ℕ)
    (e : Ent) (w : ℕ) (rest : List ℕ) (below : slot < cap) (taken : occ slot s.pend_free ≡ 0)
    (next_free : g.free ≡ w ∷ rest) where
  abbrev old_free : Chain s.warena s.wfree (w ∷ rest)
  old_free = subst (Chain s.warena s.wfree) next_free v.free_chain

  abbrev occ_free : (a : ℕ) → occ a g.free ≡ (if w == a then 1 else 0) + occ a rest
  occ_free a = ap (occ a) next_free

  w_once : (i : ℕ) → i < cap → (occ w (g.chain i) ≡ 0) × (occ w rest ≡ 0)
  w_once i h = ground (arith, node_once v w i h, occ_free w, ==_refl w)

  joined_chain :
      (i : ℕ)
      → i < cap
      → occ i s.pend_free ≡ 0
      → Chain
          (joined p s slot e w).warena
          ((joined p s slot e w).pend i).first_waiter
          ((joins g slot w rest).chain i)
  joined_chain i h o = elim (ℕ_discrete slot i) [
    | yes q ↦
        rw
          (
            ← q,
            update_self s.pend slot (record (s.pend slot) { first_waiter = w }),
            update_self g.chain slot (w ∷ g.chain slot),
          )
          (
            refl,
            old_free.1,
            subst
                (λ (a : Waiter).
                  Chain (update s.warena w (waiter_of p s slot e)) a.next (g.chain slot))
                (sym (update_self s.warena w (waiter_of p s slot e)))
                (Chain-update s.warena w (waiter_of p s slot e) (s.pend slot).first_waiter
                  (g.chain slot) (w_once slot below).0 (v.chains slot below taken)),
          )
    | no ne ↦
        rw (update_ne s.pend _ ne, update_ne g.chain _ ne)
          (Chain-update s.warena w (waiter_of p s slot e) (s.pend i).first_waiter (g.chain i)
            (w_once i h).0 (v.chains i h o))
  ]

  -- Node `w` has left the free chain for the page's.
  pub joined-Pools : Pools cap wcap (joined p s slot e w) (joins g slot w rest)
  joined-Pools = record {
    few_slots = v.few_slots;
    few_waiters = v.few_waiters;
    free_chain =
        Chain-update s.warena w (waiter_of p s slot e) (s.warena w).next rest (w_once slot below).1
          old_free.2;
    chains = joined_chain;
    bare = λ i o. ground (arith, v.bare i);
    nodes = λ a. ground (
      arith,
      v.nodes a,
      occ_free a,
      total-chain cap g.chain slot (w ∷ g.chain slot) (occ a) below,
    );
    counted =
        ground (arith, v.counted, ap length next_free, chain_fits v slot below, v.few_waiters);
    sizes = omega (
      arith,
      v.sizes,
      ap length next_free,
      total-chain cap g.chain slot (w ∷ g.chain slot) length below,
    );
    slots = λ i. ground (arith, v.slots i);
    held_chain =
        Held-cong s.pend (joined p s slot e w).pend s.gpu_held g.held (λ i q. ground arith)
          v.held_chain;
  }
