-- ===== src/Shard/Pools/Account.antt =====
-- The requests that the waiters of a shard stand for, counted by request id.
use gpu_fpga_dma.Base.{
  ℕ, ◌+◌, ◌<◌, ◌≡◌, ◌≢◌, refl, if-both, ◌∙◌, ap, List, [], ◌∷◌, arith, Array, update, ◌==◌,
  if◌then◌else◌, update_self, update_ne,
}
use native.Mathlib.Decide.{ℕ_discrete}
use gpu_fpga_dma.Shard.{Shard, Waiter}
use gpu_fpga_dma.Shard.Chain.{occ, total, total_cong, total-update}
use gpu_fpga_dma.Shard.Pools.Inv.{Pools, Ghost, flying}

-- How many of the nodes ask for request `r`.
abbrev pub asks : ℕ → Array Waiter → List ℕ → ℕ
asks r a [] = 0
asks r a (x ∷ xs) = (if (a x).req_id == r then 1 else 0) + asks r a xs

-- How many waiters of all slots ask for request `r`.
abbrev pub waiting : ℕ → Array Waiter → Array (List ℕ) → ℕ → ℕ
waiting cap a chain r = total cap (λ i. asks r a (chain i))

pub asks-update :
    (r : ℕ) (a : Array Waiter) (w : ℕ) (v : Waiter) (xs : List ℕ)
    → occ w xs ≡ 0
    → asks r (update a w v) xs ≡ asks r a xs
asks-update r a w v [] o = refl
asks-update r a w v (x ∷ xs) o =
    let ne : w ≢ x = ground arith in
    rw (update_ne a v ne) (ground (arith, asks-update r a w v xs (omega arith)))

pub asks_cong :
    (r : ℕ) (a b : Array Waiter) (xs : List ℕ)
    → ((w : ℕ) → (b w).req_id ≡ (a w).req_id)
    → asks r b xs ≡ asks r a xs
asks_cong r a b [] same = refl
asks_cong r a b (x ∷ xs) same = rw (same x) (ground (arith, asks_cong r a b xs same))

pub join-at :
    (cap : ℕ) (a : Array Waiter) (chain : Array (List ℕ)) (slot w : ℕ) (v : Waiter) (r i : ℕ)
    → slot < cap
    → i < cap
    → ((j : ℕ) → j < cap → occ w (chain j) ≡ 0)
    → asks r (update a w v) (update chain slot (w ∷ chain slot) i)
      ≡ update
          (λ j. asks r a (chain j))
          slot
          ((if v.req_id == r then 1 else 0) + asks r a (chain slot))
          i
join-at cap a chain slot w v r i below h out = elim (ℕ_discrete slot i) [
  | yes e ↦
      rw
        (
          ← e,
          update_self chain slot (w ∷ chain slot),
          update_self a w v,
          update_self (λ j. asks r a (chain j)) slot
              ((if v.req_id == r then 1 else 0) + asks r a (chain slot)),
        )
        (ap (λ n. (if v.req_id == r then 1 else 0) + n)
          (asks-update r a w v (chain slot) (out slot below)))
  | no ne ↦
      rw
        (
          update_ne chain (w ∷ chain slot) ne,
          update_ne (λ j. asks r a (chain j))
              ((if v.req_id == r then 1 else 0) + asks r a (chain slot)) ne,
        )
        (asks-update r a w v (chain i) (out i h))
]

-- A node outside all chains that joins the chain of a slot adds its request.
pub waiting-join :
    (cap : ℕ) (a : Array Waiter) (chain : Array (List ℕ)) (slot w : ℕ) (v : Waiter) (r : ℕ)
    → slot < cap
    → ((i : ℕ) → i < cap → occ w (chain i) ≡ 0)
    → waiting cap (update a w v) (update chain slot (w ∷ chain slot)) r
      ≡ waiting cap a chain r + (if v.req_id == r then 1 else 0)
waiting-join cap a chain slot w v r below out =
    let n : ℕ = if v.req_id == r then 1 else 0 in
    let same =
      total_cong cap (λ i. asks r (update a w v) (update chain slot (w ∷ chain slot) i))
        (update (λ i. asks r a (chain i)) slot (n + asks r a (chain slot)))
        (λ i h. join-at cap a chain slot w v r i below h out) in
    omega (
      arith,
      same,
      total-update cap (λ i. asks r a (chain i)) slot (n + asks r a (chain slot)) below,
    )

-- The chains of the slots whose rows are not delivered: `out i` is 0 for these.
abbrev pub live : Array ℕ → Array (List ℕ) → Array (List ℕ)
live out chain i = if out i == 0 then chain i else []

-- Where a slot is once its rows are delivered.
abbrev pub spent : Shard → Ghost → ℕ → ℕ
spent s g i = occ i s.pend_return + occ i g.held + occ i g.hand

-- One slot's requests are taken out of the sum.
pub waiting-out :
    (cap : ℕ) (a b : Array Waiter) (chain chain' : Array (List ℕ)) (slot r : ℕ)
    → slot < cap
    → chain' slot ≡ []
    → ((i : ℕ) → slot ≢ i → chain' i ≡ chain i)
    → ((w : ℕ) → (b w).req_id ≡ (a w).req_id)
    → waiting cap b chain' r + asks r a (chain slot) ≡ waiting cap a chain r
waiting-out cap a b chain chain' slot r below none_left others same =
    let pointwise =
      total_cong cap (λ i. asks r b (chain' i)) (update (λ i. asks r a (chain i)) slot 0)
        (λ i h. elim (ℕ_discrete slot i) [
          | yes e ↦ rw (← e, none_left, update_self (λ j. asks r a (chain j)) slot 0) refl
          | no ne ↦
              rw (others i ne, update_ne (λ j. asks r a (chain j)) 0 ne)
                (asks_cong r a b (chain i) same)
        ]) in
    omega (arith, pointwise, total-update cap (λ i. asks r a (chain i)) slot 0 below)

live-update :
    (out : Array ℕ) (chain : Array (List ℕ)) (slot w i : ℕ)
    → out slot ≡ 0
    → live out (update chain slot (w ∷ chain slot)) i
      ≡ update (live out chain) slot (w ∷ live out chain slot) i
live-update out chain slot w i due = elim (ℕ_discrete slot i) [
  | yes e ↦
      rw
        (
          ← e,
          update_self chain slot (w ∷ chain slot),
          update_self (live out chain) slot (w ∷ live out chain slot),
          due,
        )
        refl
  | no ne ↦
      rw
        (
          update_ne chain (w ∷ chain slot) ne,
          update_ne (live out chain) (w ∷ live out chain slot) ne,
        )
        refl
]

live-occ :
    (out : Array ℕ) (chain : Array (List ℕ)) (w i : ℕ)
    → occ w (chain i) ≡ 0
    → occ w (live out chain i) ≡ 0
live-occ out chain w i o = if-both (λ xs. occ w xs ≡ 0) (out i == 0) _ _ (λ _. o) (λ _. refl)

-- A node that joins the chain of a slot that is not delivered.
pub waiting-live :
    (cap : ℕ) (a : Array Waiter) (out : Array ℕ) (chain : Array (List ℕ)) (slot w : ℕ) (v : Waiter)
    (r : ℕ)
    → slot < cap
    → out slot ≡ 0
    → ((i : ℕ) → i < cap → occ w (chain i) ≡ 0)
    → waiting cap (update a w v) (live out (update chain slot (w ∷ chain slot))) r
      ≡ waiting cap a (live out chain) r + (if v.req_id == r then 1 else 0)
waiting-live cap a out chain slot w v r below due outside =
    let same =
      total_cong cap (λ i. asks r (update a w v) (live out (update chain slot (w ∷ chain slot)) i))
        (λ i. asks r (update a w v) (update (live out chain) slot (w ∷ live out chain slot) i))
        (λ i _. ap (asks r (update a w v)) (live-update out chain slot w i due)) in
    same
    ∙ waiting-join cap a (live out chain) slot w v r below
        (λ i h. live-occ out chain w i (outside i h))

-- The pools of a shard are in order, the slots `hand` are in a loop's hand, and of request `r`
-- `waits r` undelivered waiters ask for it.
pub record Account (cap wcap : ℕ) (s : Shard) (hand : List ℕ) (waits : ℕ → ℕ) : Type 0 where
  pub ghost : Ghost
  pub pools : Pools cap wcap s ghost
  pub in_hand : ghost.hand ≡ hand
  pub waits_for : (r : ℕ) → waiting cap s.warena (live (spent s ghost) ghost.chain) r ≡ waits r

-- `t` with the pools of `s`.
abbrev pub restore : Shard → Shard → Shard
restore s t = record t {
  pend = s.pend;
  pend_free = s.pend_free;
  warena = s.warena;
  wfree = s.wfree;
  wfree_n = s.wfree_n;
}

-- `t` with all that the account of `s` is about.
abbrev pub graft : Shard → Shard → Shard
graft t s = record (restore s t) {
  done_list = s.done_list;
  pend_return = s.pend_return;
  gpu_held = s.gpu_held;
}

-- The other fields may change.
pub elsewhere :
    {cap wcap : ℕ} {s : Shard} {hand : List ℕ} {waits : ℕ → ℕ} (t : Shard)
    → Account cap wcap s hand waits
    → Account cap wcap (graft t s) hand waits
elsewhere t v = record {
  ghost = v.ghost;
  pools = record {
    few_slots = v.pools.few_slots;
    few_waiters = v.pools.few_waiters;
    free_chain = v.pools.free_chain;
    chains = v.pools.chains;
    bare = v.pools.bare;
    nodes = v.pools.nodes;
    counted = v.pools.counted;
    sizes = v.pools.sizes;
    slots = v.pools.slots;
    held_chain = v.pools.held_chain;
  };
  in_hand = v.in_hand;
  waits_for = v.waits_for;
}

-- A slot in flight is neither free nor delivered.
pub aloft :
    {cap wcap : ℕ} {s : Shard} {g : Ghost} (slot : ℕ)
    → Pools cap wcap s g
    → flying (s.pend slot) ≡ 1
    → (slot < cap) × (occ slot s.pend_free ≡ 0) × (spent s g slot ≡ 0)
aloft slot v flies = ground (arith, v.slots slot)

-- The sum depends only on which slots are delivered.
pub waiting-live_cong :
    (cap : ℕ) (a : Array Waiter) (out out' : Array ℕ) (chain : Array (List ℕ)) (r : ℕ)
    → ((i : ℕ) → out' i ≡ out i)
    → waiting cap a (live out' chain) r ≡ waiting cap a (live out chain) r
waiting-live_cong cap a out out' chain r same =
    total_cong cap (λ i. asks r a (live out' chain i)) (λ i. asks r a (live out chain i))
      (λ i _. ap (λ n. asks r a (if n == 0 then chain i else [])) (same i))
