-- ===== src/Middle/Reap.antt =====
-- The reap phase: `co_reap`, `co_gpu_reclaim`, `co_drain_returns`.
use gpu_fpga_dma.Base.{ℕ, zero, suc, Bool, true, false, ◌||◌, List, [], ◌∷◌, ◌==◌, if◌then◌else◌}
use gpu_fpga_dma.Base.Words.{sub32, signed32_nonneg}
use gpu_fpga_dma.Cookie.{gs_state, pend_error}
use gpu_fpga_dma.Shard.{Shard, set_page, co_nil}
use gpu_fpga_dma.Middle.{Ops, Params, Mid, inc}
use gpu_fpga_dma.Middle.Deliver.{deliver_chain}
use gpu_fpga_dma.Middle.Issue.{give_back}

-- Where a reaped page goes: behind the descriptors that name its staging, or back to the issuer.
unfoldable pub hand_over : Params → ℕ → Shard → ℕ → Shard
hand_over p head s slot =
    if p.gpupull
    then record (set_page s slot
        (record (s.pend slot) { gpu_wm = head; gpu_held_next = s.gpu_held })) { gpu_held = slot }
    else record s { pend_return = slot ∷ s.pend_return }

module _ {E : Type 0} (ops : Ops E) (p : Params) where
  -- The rows of one finished page, and the page handed over.
  unfoldable pub reap_page : Mid E → ℕ → Mid E
  unfolding hand_over
  reap_page m slot =
      let s = m.shard in
      let page = s.pend slot in
      let failed = gs_state page.genstate == pend_error in
      let st = m.stats in
      let env =
        deliver_chain ops p p.warena_cap s.warena m.env page.first_waiter page.staging
          (if failed then 1 else 0) in
      record {
        shard = hand_over p (ops.gring_head env) s slot;
        stats = if failed then record st { errors = inc st.errors } else st;
        env = env;
      }

  unfoldable pub reap_pages : Mid E → List ℕ → Mid E
  reap_pages m [] = m
  reap_pages m (slot ∷ slots) = reap_pages (reap_page m slot) slots

  -- `co_reap`
  unfoldable pub reap : Mid E → Mid E
  unfolding reap_page reap_pages
  reap m = reap_pages (record m { shard = record (m.shard) { done_list = [] } }) (m.shard).done_list

-- Where the walk of `co_gpu_reclaim` writes when it unlinks a page: the list's head, or the link of
-- the page before.
pub data Link : Type 0 where
  first : Link
  behind : ℕ → Link

unfoldable pub set_link : Shard → Link → ℕ → Shard
set_link s first next = record s { gpu_held = next }
set_link s (behind i) next = set_page s i (record (s.pend i) { gpu_held_next = next })

-- `co_gpu_reclaim`, from page `idx` on, with the GPU's cursor `tail`. The fuel is the number of
-- slots.
unfoldable pub reclaim_from : ℕ → Bool → ℕ → Link → ℕ → Shard → Shard
unfolding set_link
reclaim_from zero force tail link idx s = s
reclaim_from (suc f) force tail link idx s = elim (idx == co_nil) [
  | true ↦ s
  | false ↦
      let page = s.pend idx in
      let next = page.gpu_held_next in
      elim (force || signed32_nonneg (sub32 tail page.gpu_wm)) [
        | true ↦
            reclaim_from f force tail link next
              (record (set_link s link next) { pend_return = idx ∷ s.pend_return })
        | false ↦ reclaim_from f force tail (behind idx) next s
      ]
]

-- `co_gpu_reclaim`
unfoldable pub gpu_reclaim : Params → ℕ → Bool → Shard → Shard
unfolding reclaim_from
gpu_reclaim p gring_tail force s =
    reclaim_from p.pend_cap force (if force then 0 else gring_tail) first s.gpu_held s

unfoldable pub drain_pages : Params → Shard → List ℕ → Shard
drain_pages p s [] = s
drain_pages p s (slot ∷ slots) = drain_pages p (give_back p s slot) slots

-- `co_drain_returns`
unfoldable pub drain_returns : Params → Shard → Shard
unfolding drain_pages
drain_returns p s = drain_pages p (record s { pend_return = [] }) s.pend_return
