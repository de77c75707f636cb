-- ===== src/Middle/Keeps/Once.antt =====
-- The phases of a shard's threads in any order, and what an idle shard has done: `co_shard_idle`.
use gpu_fpga_dma.Base.{
  ℕ, zero, suc, ◌+◌, ◌≤◌, ◌<◌, ◌≡◌, ◌≢◌, refl, sym, ap, ◌∙◌, Bool, true, List, [], ◌∷◌, arith,
  length, drop, ◌==◌, update, Array, if-both, ==_refl,
}
use gpu_fpga_dma.Shard.{Shard, Ent}
use gpu_fpga_dma.Shard.Chain.{total-zero, occ, total, total_cong, total-update}
use gpu_fpga_dma.Shard.Pools.Account.{Account, live, spent, asks}
use gpu_fpga_dma.Middle.{Params, Ops, Mid}
use gpu_fpga_dma.Middle.Complete.{complete, timeout_scan, force_complete}
use gpu_fpga_dma.Middle.Issue.{flush_issue}
use gpu_fpga_dma.Middle.Reap.{reap, gpu_reclaim, drain_returns}
use gpu_fpga_dma.Middle.Lap.{poll_backend, shard_idle}
use gpu_fpga_dma.Middle.Keeps.Back.{Posts}
use gpu_fpga_dma.Middle.Keeps.Join.{wants}
use gpu_fpga_dma.Middle.Keeps.Issue.{Books, binned, flush_issue-Books}
use gpu_fpga_dma.Middle.Keeps.Settle.{
  poll_backend-Books, timeout_scan-Books, complete-Books, force_complete-Books,
}
use gpu_fpga_dma.Middle.Keeps.Reap.{reap-Books}
use gpu_fpga_dma.Middle.Keeps.Release.{gpu_reclaim-Books}
use gpu_fpga_dma.Middle.Keeps.Drain.{drain_returns-Books}

module _ {E : Type 0} (ops : Ops E) (p : Params) where
  abbrev pub with_shard : Mid E → Shard → Mid E
  with_shard m s = record m { shard = s }

  -- One phase of one of the threads, or one completion at any time.
  pub data Phase (m : Mid E) : Mid E → Type 0 where
    issues : Phase m (flush_issue ops p m)
    completion : (cookie status : ℕ) → Phase m (with_shard m (complete p m.shard cookie status))
    polls : Phase m (poll_backend ops p m)
    sweep : Phase m (timeout_scan ops p m)
    delivers : Phase m (reap ops p m)
    reclaim : (tail : ℕ) (force : Bool) → Phase m (with_shard m (gpu_reclaim p tail force m.shard))
    drains : Phase m (with_shard m (drain_returns p m.shard))
    abandon : Phase m (with_shard m (force_complete p m.shard))

  pub data Run (m : Mid E) : Mid E → Type 0 where
    rest : Run m m
    on : {t u : Mid E} → Run m t → Phase t u → Run m u

  module _ (posted : E → ℕ → ℕ) (law : Posts ops posted) (n : ℕ → ℕ) where
    phase-Books : {m t : Mid E} → Phase m t → Books p posted n m → Books p posted n t
    phase-Books {m} issues v = flush_issue-Books ops p posted law n m v
    phase-Books {m} (completion cookie status) v = complete-Books ops p posted n m cookie status v
    phase-Books {m} polls v = poll_backend-Books ops p posted n law m v
    phase-Books {m} sweep v = timeout_scan-Books ops p posted n law m v
    phase-Books {m} delivers v = reap-Books ops p posted law n m v
    phase-Books {m} (reclaim tail force) v = gpu_reclaim-Books p posted n tail force m v
    phase-Books {m} drains v = drain_returns-Books p posted n m v
    phase-Books {m} abandon v = force_complete-Books ops p posted n m v

    pub Run-Books : {m t : Mid E} → Run m t → Books p posted n m → Books p posted n t
    Run-Books rest v = v
    Run-Books (on r ph) v = phase-Books ph (Run-Books r v)

-- A list of small numbers, counted by its elements.
occ-total :
    (cap : ℕ) (xs : List ℕ)
    → ((i : ℕ) → occ i xs ≢ 0 → i < cap)
    → total cap (λ i. occ i xs) ≡ length xs
occ-total cap [] small = total-zero cap (λ i. 0) (λ i h. refl)
occ-total cap (x ∷ xs) small =
    let same =
      total_cong cap (λ i. occ i (x ∷ xs)) (update (λ i. occ i xs) x (1 + occ x xs))
        (λ i h. ground arith) in
    omega (
      arith,
      same,
      occ-total cap xs (λ i o. small i (omega arith)),
      total-update cap (λ i. occ i xs) x (1 + occ x xs) (small x (ground (arith, ==_refl x))),
    )

total-ones : (cap : ℕ) (f : Array ℕ) → ((i : ℕ) → f i ≤ 1) → total cap f ≤ cap
unfolding total
total-ones zero f one = omega arith
total-ones (suc cap) f one = omega (arith, total-ones cap f one, one cap)

full_once :
    (cap : ℕ) (f : Array ℕ) → ((i : ℕ) → f i ≤ 1) → total cap f ≡ cap → (i : ℕ) → i < cap → f i ≡ 1
full_once cap f one full i h = omega (
  arith,
  one i,
  full,
  total-update cap f i 1 h,
  total-ones cap (update f i 1) (λ j. ground (arith, one j)),
)

empty_drop : (i : ℕ) (win : List Ent) → length win ≡ 0 → (r : ℕ) → wants r (drop i win) ≡ 0
empty_drop zero [] e r = refl
empty_drop (suc i) [] e r = refl
empty_drop i (x ∷ win) e r = absurd (omega arith)

-- With all slots free nobody waits.
none_waits :
    {cap wcap : ℕ} {s : Shard} {waits : ℕ → ℕ}
    → Account cap wcap s [] waits
    → length s.pend_free ≡ cap
    → (r : ℕ) → waits r ≡ 0
none_waits {cap} {s = s} v full r =
    sym (v.waits_for r)
    ∙ total-zero cap (λ i. asks r s.warena (live (spent s v.ghost) v.ghost.chain i))
        (λ i h. ap (asks r s.warena) (gone i h))
  where
    free_once : (i : ℕ) → i < cap → occ i s.pend_free ≡ 1
    free_once =
        full_once cap (λ i. occ i s.pend_free) (λ i. ground (arith, v.pools.slots i))
          (occ-total cap s.pend_free (λ i o. ground (arith, v.pools.slots i)) ∙ full)

    gone : (i : ℕ) → i < cap → live (spent s v.ghost) v.ghost.chain i ≡ []
    gone i h =
        if-both (λ xs. xs ≡ []) (spent s v.ghost i == 0) _ _
          (λ _. v.pools.bare i (omega (arith, free_once i h))) (λ _. refl)

-- After any run of phases and completions from a state whose books stand at `n`, a shard that
-- `co_shard_idle` calls idle has posted, for each request `r`, `n r` completions less the entries
-- with that request that still stand in a bucket: none is lost and none is doubled.
pub idle_each_once :
    {E : Type 0} (ops : Ops E) (p : Params) (posted : E → ℕ → ℕ) (law : Posts ops posted)
    (n : ℕ → ℕ) {m t : Mid E}
    → Books p posted n m
    → Run ops p m t
    → shard_idle p t.shard ≡ true
    → (r : ℕ) → binned p t.shard r + posted t.env r ≡ n r
unfolding shard_idle
idle_each_once ops p posted law n {t = t} v run idle r =
    let w = Run-Books ops p posted law n run v in
    let free : length (t.shard).pend_free ≡ p.pend_cap = ground arith in
    omega (
      arith,
      w.balance r,
      none_waits w.account free r,
      empty_drop (t.shard).issue_pos (t.shard).win (ground arith) r,
    )
