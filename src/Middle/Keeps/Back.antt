-- ===== src/Middle/Keeps/Back.antt =====
-- A page that is delivered and goes back to the pools.
use gpu_fpga_dma.Base.{
  ap₂, if-both, update, update_self, update_ne, ℕ, zero, suc, ◌+◌, ◌-◌, ◌≤◌, ◌<◌, ◌≡◌, ◌≢◌, refl,
  sym, ap, ◌∙◌, List, [], ◌∷◌, arith, length, ◌==◌, if◌then◌else◌, some, Array, ne→not_==,
  Bool-cases, Option-cases, inl, inr,
}
use gpu_fpga_dma.Ring.{Cqe}
use gpu_fpga_dma.Shard.{Shard, Waiter, co_nil, free_page, waiter_free_chain}
use gpu_fpga_dma.Shard.Chain.{Chain, occ, le-total}
use gpu_fpga_dma.Shard.Pools.Inv.{flying}
use gpu_fpga_dma.Shard.Pools.Slots.{give_back-Pools, freed_lem, emptied, chain_fits}
use gpu_fpga_dma.Shard.Pools.Account.{live, spent, waiting-out, Account, restore, waiting, asks}
use gpu_fpga_dma.Middle.{Params, Ops, Bread}
use gpu_fpga_dma.Middle.Deliver.{deliver_row, row_then_cqe, deliver_chain}
use gpu_fpga_dma.Middle.Issue.{give_back, deliver_page}

-- What the front ends do with the completions: `posted env r` counts those of request `r`. A `cqe`
-- or a `deliver` posts one; the clock, a read and a copy post none.
pub record Posts {E : Type 0} (ops : Ops E) (posted : E → ℕ → ℕ) : Type 0 where
  pub clock_posts : (env : E) (r : ℕ) → posted (ops.local_clock env).1 r ≡ posted env r
  pub read_posts : (env : E) (b : Bread) (r : ℕ) → posted (ops.issue_read env b).1 r ≡ posted env r
  pub poll_posts :
      (poll : E → ℕ → List (ℕ × ℕ) × E)
      → ops.poll ≡ some poll
      → (env : E) (id r : ℕ) → posted (poll env id).1 r ≡ posted env r
  pub row_posts :
      (env : E) (dst src len r : ℕ) → posted (ops.row env dst src len).1 r ≡ posted env r
  pub cqe_posts :
      (env : E) (c : Cqe) (r : ℕ)
      → posted (ops.cqe env c) r ≡ posted env r + (if c.req_id == r then 1 else 0)
  pub deliver_posts :
      (deliver : E → Waiter → ℕ → ℕ → E)
      → ops.deliver ≡ some deliver
      → (env : E) (w : Waiter) (src status r : ℕ)
      → posted (deliver env w src status) r ≡ posted env r + (if w.req_id == r then 1 else 0)

module _ {E : Type 0} (ops : Ops E) (p : Params) (posted : E → ℕ → ℕ) (law : Posts ops posted) where
  row_then_cqe_posts :
      (env : E) (w : Waiter) (src status r : ℕ)
      → posted (row_then_cqe ops p env w src status) r
        ≡ posted env r + (if w.req_id == r then 1 else 0)
  row_then_cqe_posts env w src status r = elim (Bool-cases (status == 0)) [
    | inl q ↦
        rw (q, row_then_cqe)
          (law.cqe_posts (ops.row env w.dst_phys (src + w.off_in_page) p.row).1 _ r
            ∙ ap (λ n. n + (if w.req_id == r then 1 else 0))
                (law.row_posts env w.dst_phys (src + w.off_in_page) p.row r))
    | inr q ↦ rw (q, row_then_cqe) (law.cqe_posts env _ r)
  ]

  row_posts_one :
      (env : E) (w : Waiter) (src status r : ℕ)
      → posted (deliver_row ops p env w src status) r
        ≡ posted env r + (if w.req_id == r then 1 else 0)
  unfolding deliver_row
  row_posts_one env w src status r = elim (Option-cases ops.deliver) [
    | inr (deliver, e) ↦ rw (e, deliver_row) (law.deliver_posts deliver e env w src status r)
    | inl e ↦ rw (e, deliver_row) (row_then_cqe_posts env w src status r)
  ]

  deliver_chain-stop :
      (f : ℕ) (a : Array Waiter) (env : E) (src status : ℕ)
      → deliver_chain ops p f a env co_nil src status ≡ env
  unfolding deliver_chain
  deliver_chain-stop zero a env src status = refl
  deliver_chain-stop (suc f) a env src status = refl

  deliver_chain-step :
      (f : ℕ) (a : Array Waiter) (env : E) (x src status : ℕ)
      → x ≢ co_nil
      → deliver_chain ops p (suc f) a env x src status
        ≡ deliver_chain ops p f a (deliver_row ops p env (a x) src status) (a x).next src status
  unfolding deliver_chain
  deliver_chain-step f a env x src status ne = rw (ne→not_== x co_nil ne, deliver_chain)

  -- The walk over a chain posts each of its requests once.
  pub chain_posts :
      (f : ℕ) (a : Array Waiter) (xs : List ℕ) (env : E) (head src status r : ℕ)
      → length xs ≤ f
      → Chain a head xs
      → posted (deliver_chain ops p f a env head src status) r ≡ posted env r + asks r a xs
  chain_posts f a [] env head src status r l c =
      rw (c, deliver_chain-stop f a env src status) (omega arith)
  chain_posts zero a (x ∷ xs) env head src status r l c = absurd (omega arith)
  chain_posts (suc f) a (x ∷ xs) env head src status r l (e, ne, c) =
      rw (e, deliver_chain-step f a env x src status ne)
        (omega (
          arith,
          row_posts_one env (a x) src status r,
          chain_posts f a xs (deliver_row ops p env (a x) src status) (a x).next src status r
              (omega arith) c,
        ))

module _ (p : Params) {cap : ℕ} {s : Shard} {hand : List ℕ} {waits : ℕ → ℕ}
    (v : Account cap p.warena_cap s hand waits) (slot : ℕ) (below : slot < cap)
    (taken : occ slot s.pend_free ≡ 0) where
  -- The requests that wait for the page of `slot`.
  abbrev pub page_asks : ℕ → ℕ
  page_asks r = asks r s.warena (v.ghost.chain slot)

  -- Those of them that are not delivered.
  abbrev pub page_due : ℕ → ℕ
  page_due r = asks r s.warena (live (spent s v.ghost) v.ghost.chain slot)

  pub all_due : spent s v.ghost slot ≡ 0 → (r : ℕ) → page_due r ≡ page_asks r
  all_due e r = rw e refl

  pub none_due : spent s v.ghost slot ≢ 0 → (r : ℕ) → page_due r ≡ 0
  none_due ne r = rw (ne→not_== (spent s v.ghost slot) 0 ne) refl

  module _ (hand' : List ℕ)
      (moved : (i : ℕ)
        → occ i hand' + (if slot == i then 1 else 0)
          ≡ occ i hand + (if slot == i then flying (s.pend slot) else 0)) where
    abbrev moved_ghost :
        (i : ℕ)
        → occ i hand' + (if slot == i then 1 else 0)
          ≡ occ i v.ghost.hand + (if slot == i then flying (s.pend slot) else 0)
    moved_ghost i =
        moved i
        ∙ ap (λ h. occ i h + (if slot == i then flying (s.pend slot) else 0)) (sym v.in_hand)

    -- The page leaves the account with its requests, and its slot is free again.
    pub give_back_lem :
        Account cap p.warena_cap (give_back p s slot) hand' (λ r. waits r - page_due r)
    unfolding give_back free_page
    give_back_lem = record {
      ghost = emptied v.ghost slot hand';
      pools = give_back-Pools v.pools slot hand' below taken moved_ghost;
      in_hand = refl;
      waits_for = λ r. omega (arith, v.waits_for r, left r);
    }
      where
        returned : (give_back p s slot).pend_return ≡ s.pend_return
        returned =
            ap (λ (t : Shard). t.pend_return)
              (freed_lem v.pools slot hand' below taken moved_ghost).rest

        spent_same :
            (i : ℕ)
            → slot ≢ i
            → spent (give_back p s slot) (emptied v.ghost slot hand') i ≡ spent s v.ghost i
        spent_same i ne =
            let hands : occ i hand' ≡ occ i v.ghost.hand = ground (arith, moved_ghost i) in
            omega (arith, ap (occ i) returned, hands)

        left :
            (r : ℕ)
            → waiting cap
                  (waiter_free_chain p.warena_cap s (s.pend slot).first_waiter).warena
                  (live
                    (spent (give_back p s slot) (emptied v.ghost slot hand'))
                    (update v.ghost.chain slot []))
                  r
                + page_due r
              ≡ waiting cap s.warena (live (spent s v.ghost) v.ghost.chain) r
        left r =
            waiting-out cap s.warena
              (waiter_free_chain p.warena_cap s (s.pend slot).first_waiter).warena
              (live (spent s v.ghost) v.ghost.chain) _ slot r below
              (if-both (λ (xs : List ℕ). xs ≡ [])
                (spent (give_back p s slot) (emptied v.ghost slot hand') slot == 0) _ _
                (λ _. update_self v.ghost.chain slot []) (λ _. refl))
              (λ i ne.
                ap₂ (λ n (xs : List ℕ). if n == 0 then xs else []) (spent_same i ne)
                  (update_ne v.ghost.chain [] ne))
              (freed_lem v.pools slot hand' below taken moved_ghost).ids

    pub give_back_rest : restore s (give_back p s slot) ≡ s
    unfolding give_back free_page
    give_back_rest =
        ap (λ t. restore s (free_page t slot))
          (freed_lem v.pools slot hand' below taken moved_ghost).rest

  pub due_fit : (r : ℕ) → page_due r ≤ waits r
  due_fit r = omega (
    arith,
    v.waits_for r,
    le-total cap (λ i. asks r s.warena (live (spent s v.ghost) v.ghost.chain i)) slot below,
  )

  pub deliver_page-Posts :
      {E : Type 0} (ops : Ops E) (posted : E → ℕ → ℕ) (law : Posts ops posted) (env : E)
      (status r : ℕ)
      → posted (deliver_page ops p s slot env status) r ≡ posted env r + page_asks r
  deliver_page-Posts ops posted law env status r =
      chain_posts ops p posted law p.warena_cap s.warena (v.ghost.chain slot) env
        (s.pend slot).first_waiter (s.pend slot).staging status r
        (omega (arith, chain_fits v.pools slot below)) (v.pools.chains slot below taken)
