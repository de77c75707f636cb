-- ===== src/Middle/Keeps/Join.antt =====
-- The entries of a run join the page of its slot, `add_waiters`.
use gpu_fpga_dma.Base.{
  ℕ, ◌+◌, ◌≤◌, ◌<◌, ◌^◌, ◌≡◌, refl, ap, ◌∙◌, List, [], ◌∷◌, arith, length, ◌==◌, if◌then◌else◌,
  subst, update_self,
}
use gpu_fpga_dma.Shard.{Shard, Ent, PendPage}
use gpu_fpga_dma.Shard.Chain.{Chain, occ}
use gpu_fpga_dma.Shard.Pools.Inv.{flying}
use gpu_fpga_dma.Shard.Pools.Slots.{node_once}
use gpu_fpga_dma.Shard.Pools.Account.{waiting-live, spent, aloft, Account, join-at, asks}
use gpu_fpga_dma.Middle.{Params}
use gpu_fpga_dma.Middle.Issue.{add_waiters}
use gpu_fpga_dma.Middle.Keeps.Take.{joined, joins, add_waiter-joined, joined-Pools, waiter_of}

-- How many of the entries ask for request `r`.
abbrev pub wants : ℕ → List Ent → ℕ
wants r [] = 0
wants r (e ∷ es) = (if e.req_id == r then 1 else 0) + wants r es

abbrev pub also : (ℕ → ℕ) → List Ent → ℕ → ℕ
also waits es r = waits r + wants r es

-- From `s` to `t` the entries `es` have joined the page of `slot`.
-- `had` counts the requests of that page before.
pub record Filled (cap wcap slot : ℕ) (s t : Shard) (es : List Ent) (hand : List ℕ)
    (had waits : ℕ → ℕ) : Type 0 where
  pub account : Account cap wcap t hand (also waits es)
  pub mine : (r : ℕ) → asks r t.warena (account.ghost.chain slot) ≡ also had es r
  pub rest : t ≡ record s { pend = t.pend; warena = t.warena; wfree = t.wfree; wfree_n = t.wfree_n }
  pub word : flying (t.pend slot) ≡ flying (s.pend slot)
  pub staging : (t.pend slot).staging ≡ (s.pend slot).staging

pub record Headed (xs : List ℕ) : Type 0 where
  pub head : ℕ
  pub tail : List ℕ
  pub is : xs ≡ head ∷ tail

pub split_off : (xs : List ℕ) → 1 ≤ length xs → Headed xs
split_off [] h = absurd (omega arith)
split_off (x ∷ xs) h = record { head = x; tail = xs; is = refl }

module _ (p : Params) (cap wcap slot : ℕ) (below : slot < cap) (hand : List ℕ) where
  add_waiter_lem :
      (s : Shard) (waits : ℕ → ℕ) (e : Ent) (w : ℕ) (more : List ℕ)
      (v : Account cap wcap s hand waits)
      → flying (s.pend slot) ≡ 1
      → v.ghost.free ≡ w ∷ more
      → Account cap wcap (joined p s slot e w) hand (also waits (e ∷ []))
  add_waiter_lem s waits e w more v flies next_free = record {
    ghost = joins v.ghost slot w more;
    pools = joined-Pools v.pools p slot e w more below (aloft slot v.pools flies).1 next_free;
    in_hand = v.in_hand;
    waits_for = λ r. omega (
      arith,
      v.waits_for r,
      waiting-live cap s.warena (spent s v.ghost) v.ghost.chain slot w (waiter_of p s slot e) r
          below (aloft slot v.pools flies).2
          (λ i h. ground (arith, node_once v.pools w i h, ap (occ w) next_free)),
    );
  }

  asks-joined :
      (s : Shard) (had waits : ℕ → ℕ) (e : Ent) (w : ℕ) (more : List ℕ)
      (v : Account cap wcap s hand waits)
      → ((r : ℕ) → asks r s.warena (v.ghost.chain slot) ≡ had r)
      → v.ghost.free ≡ w ∷ more
      → (r : ℕ)
      → asks r (joined p s slot e w).warena ((joins v.ghost slot w more).chain slot)
        ≡ also had (e ∷ []) r
  asks-joined s had waits e w more v mine next_free r = omega (
    arith,
    mine r,
    update_self (λ j. asks r s.warena (v.ghost.chain j)) slot
        ((if e.req_id == r then 1 else 0) + asks r s.warena (v.ghost.chain slot)),
    join-at cap s.warena v.ghost.chain slot w (waiter_of p s slot e) r slot below below
        (λ i h. ground (arith, node_once v.pools w i h, ap (occ w) next_free)),
  )

  Filled-step :
      {s t : Shard} (had waits : ℕ → ℕ) (e : Ent) (es : List Ent) (w : ℕ)
      → Filled cap wcap slot
          (joined p s slot e w)
          t
          es
          hand
          (also had (e ∷ []))
          (also waits (e ∷ []))
      → Filled cap wcap slot s t (e ∷ es) hand had waits
  Filled-step {s} had waits e es w v = record {
    account = record {
      ghost = v.account.ghost;
      pools = v.account.pools;
      in_hand = v.account.in_hand;
      waits_for = λ r. omega (arith, v.account.waits_for r);
    };
    mine = λ r. omega (arith, v.mine r);
    rest = v.rest;
    word = v.word ∙ ap (λ (q : PendPage). flying q) (update_self s.pend slot _);
    staging = v.staging ∙ ap (λ (q : PendPage). q.staging) (update_self s.pend slot _);
  }

  -- With enough free nodes each entry of a run gets one, and nothing else happens to the pools.
  pub add_waiters_lem :
      (es : List Ent) (s : Shard) (had waits : ℕ → ℕ) (v : Account cap wcap s hand waits)
      → ((r : ℕ) → asks r s.warena (v.ghost.chain slot) ≡ had r)
      → flying (s.pend slot) ≡ 1
      → length es ≤ s.wfree_n
      → Filled cap wcap slot s (add_waiters p slot s es) es hand had waits
  unfolding add_waiters add_waiter_lem
  add_waiters_lem [] s had waits v mine flies fits = record {
    account = record {
      ghost = v.ghost;
      pools = v.pools;
      in_hand = v.in_hand;
      waits_for = λ r. omega (arith, v.waits_for r);
    };
    mine = λ r. omega (arith, mine r);
    rest = refl;
    word = refl;
    staging = refl;
  }
  add_waiters_lem (e ∷ es) s had waits v mine flies fits =
      let q = split_off v.ghost.free (omega (arith, v.pools.counted)) in
      let c : Chain s.warena s.wfree (q.head ∷ q.tail) =
        subst (Chain s.warena s.wfree) q.is v.pools.free_chain in
      let few : s.wfree_n < 2 ^ 32 =
        ground (arith, v.pools.counted, v.pools.sizes, v.pools.few_waiters) in
      rw (add_waiter-joined p slot s e q.head c.0 c.1) (
        Filled-step had waits e es q.head (
          add_waiters_lem es (joined p s slot e q.head) (also had (e ∷ [])) (also waits (e ∷ []))
            (add_waiter_lem s waits e q.head q.tail v flies q.is)
            (asks-joined s had waits e q.head q.tail v mine q.is)
            (ap (λ (a : PendPage). flying a) (update_self s.pend slot _) ∙ flies)
            (omega (arith, few, fits))))
