-- ===== src/Middle/Lap.antt =====
-- The laps of a shard's threads: `co_reaper_lap` and `co_issue_lap`.
use gpu_fpga_dma.Base.{
  ℕ, zero, suc, ◌-◌, Bool, true, false, ◌||◌, ◌&&◌, not, [], ◌∷◌, ◌++◌, ◌==◌, leb, if◌then◌else◌,
  length, min, none, some,
}
use gpu_fpga_dma.Ring.{pop_req, rq_empty}
use gpu_fpga_dma.Shard.{Shard}
use gpu_fpga_dma.Middle.{Ops, Params, Mid, inc}
use gpu_fpga_dma.Middle.Complete.{complete_each, timeout_scan}
use gpu_fpga_dma.Middle.Reap.{reap, gpu_reclaim, drain_returns}
use gpu_fpga_dma.Middle.Group.{sort_window, co_sort_bucket}
use gpu_fpga_dma.Middle.Bucket.{ent_of, tag_of, aged, bucket_lap, issue_if_sealed}

module _ {E : Type 0} (ops : Ops E) (p : Params) where
  -- `co_backend->poll(s->id)`, where the backend has it.
  unfoldable pub poll_backend : Mid E → Mid E
  unfolding complete_each
  poll_backend m = elim ops.poll [
    | none ↦ m
    | some poll ↦
        let (done, env) = poll m.env (m.shard).id in
        record m { shard = complete_each p (m.shard) done; env = env }
  ]

  abbrev pub on_shard : (Shard → Shard) → Mid E → Mid E
  on_shard f m = record m { shard = f (m.shard) }

  -- `co_reaper_lap`
  unfoldable pub reaper_lap : Mid E → Mid E
  unfolding poll_backend
  reaper_lap m =
      let m' = reap ops p (timeout_scan ops p (poll_backend m)) in
      if p.gpupull then on_shard (gpu_reclaim p (ops.gring_tail m'.env) false) m' else m'

  -- `while (s->win_n < W && pop_req(s, &req))`; the fuel is the room left in the window. The flag
  -- is `*got`.
  unfoldable pub fill_from : ℕ → Mid E → Bool → Mid E × Bool
  unfolding tag_of
  fill_from zero m got = (m, got)
  fill_from (suc f) m got =
      let s = m.shard in
      let (popped, ring) = pop_req s.ring in
      let (now, env) = ops.local_clock m.env in
      let first = length s.win == 0 in
      elim popped [
        | none ↦ (m, got)
        | some q ↦
            fill_from f
              (record m {
                shard = record s {
                  ring = ring;
                  oldest_ns = if first then now else s.oldest_ns;
                  win = s.win ++ (ent_of p q ∷ []);
                };
                env = if first then env else m.env;
              })
              true
      ]

  -- What seals a window of at most `W` requests, and its counter.
  unfoldable pub seal : ℕ → Mid E → Mid E
  unfolding aged
  seal W m =
      let s = m.shard in
      let st = m.stats in
      let full = leb W (length s.win) in
      let (now, env) = ops.local_clock m.env in
      let age = aged ops p s now in
      let empty = rq_empty s.ring && leb p.flush_min (length s.win) in
      let m' = record m { env = env } in
      if length s.win == 0
      then m
      else if full || (age || empty)
      then sort_window ops p (record m' {
        stats = record st {
          flush_w = if full then inc st.flush_w else st.flush_w;
          flush_aged = if not full && age then inc st.flush_aged else st.flush_aged;
          flush_empty = if full || age then st.flush_empty else inc st.flush_empty;
        };
      })
      else m'

  abbrev pub window_limit : ℕ
  window_limit = min p.window p.wcap

  -- `co_issue_lap` behind `co_drain_returns`, in the window modes.
  unfoldable pub window_lap : Mid E → Mid E × Bool
  unfolding fill_from seal
  window_lap m =
      let (m', got) =
        if (m.shard).win_sorted
        then (m, false)
        else (let (filled, got) = fill_from (window_limit - length (m.shard).win) m false in
            (seal window_limit filled, got)) in
      (issue_if_sealed ops p m', got)

  -- `co_issue_lap`, with the value of `*got` from false.
  unfoldable pub issue_lap : Mid E → Mid E × Bool
  unfolding window_lap bucket_lap
  issue_lap m =
      let m' = on_shard (drain_returns p) m in
      if p.sort == co_sort_bucket
      then (let m'' = bucket_lap ops p window_limit m' in
          (m'', not ((m''.shard).bkt_total == 0) || (m''.shard).win_sorted))
      else window_lap m'

-- `co_shard_idle`
unfoldable pub shard_idle : Params → Shard → Bool
shard_idle p s =
    (length s.win == 0)
    && ((length s.pend_free == p.pend_cap)
        && ((length s.done_list == 0) && ((length s.pend_return == 0) && (s.bkt_total == 0))))
