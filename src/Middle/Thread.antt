-- ===== src/Middle/Thread.antt =====
-- The threads of a shard: `co_consumer`, the issuer or the only thread, and `co_reaper`.
use gpu_fpga_dma.Base.{
  ℕ, zero, suc, Bool, true, ◌&&◌, not, List, [], ◌∷◌, ◌==◌, if◌then◌else◌, length,
}
use gpu_fpga_dma.Shard.{Shard, co_nil}
use gpu_fpga_dma.Middle.{Ops, Params, Mid}
use gpu_fpga_dma.Middle.Complete.{force_complete}
use gpu_fpga_dma.Middle.Reap.{reap, gpu_reclaim, drain_returns}
use gpu_fpga_dma.Middle.Bucket.{bucket_fullest, bucket_evict}
use gpu_fpga_dma.Middle.Lap.{reaper_lap, issue_lap, shard_idle, on_shard}

-- `guard` of both teardown loops
abbrev pub guard_laps : ℕ
guard_laps = 100000

module _ {E : Type 0} (ops : Ops E) (p : Params) where
  -- One turn of `while (!kthread_should_stop())` in `co_consumer`; with `split` the reaper reaps.
  unfoldable pub consumer_turn : Bool → Bool → Mid E → Mid E
  consumer_turn split enabled m =
      if enabled then (issue_lap ops p (if split then m else reaper_lap ops p m)).0 else m

  -- The turns until the thread has to stop, each with the value of `coalesce_enable`.
  unfoldable pub consumer_turns : Bool → List Bool → Mid E → Mid E
  unfolding consumer_turn
  consumer_turns split [] m = m
  consumer_turns split (enabled ∷ more) m =
      consumer_turns split more (consumer_turn split enabled m)

  -- A left-over bucket of a shard with no window.
  unfoldable pub flush_leftover : Mid E → Mid E
  flush_leftover m =
      let s = m.shard in
      let b = bucket_fullest p s in
      if not s.win_sorted && ((length s.win == 0) && not (s.bkt_total == 0))
      then if b == co_nil then m else bucket_evict ops p m b true
      else m

  -- What ends the teardown of the issuer.
  abbrev pub torn_down : Bool → Shard → Bool
  torn_down split s =
      if split
      then (length s.win == 0) && (not s.win_sorted && (s.bkt_total == 0))
      else shard_idle p s

  unfoldable pub consumer_drain : ℕ → Bool → Mid E → Mid E
  unfolding flush_leftover
  consumer_drain zero split m = m
  consumer_drain (suc guard) split m =
      let m1 = if split then m else reaper_lap ops p m in
      let m2 = (issue_lap ops p (flush_leftover m1)).0 in
      let rest = consumer_drain guard split m2 in if torn_down split m2.shard then m2 else rest

  -- The held pages, once the GPU has stopped.
  abbrev pub release_held : Mid E → Mid E
  release_held m =
      if p.gpupull then on_shard ops p (gpu_reclaim p (ops.gring_tail m.env) true) m else m

  -- The end of a consumer that has no reaper.
  unfoldable pub consumer_end : Mid E → Mid E
  consumer_end m =
      on_shard ops p (drain_returns p)
        (release_held (reaper_lap ops p (on_shard ops p (force_complete p) m)))

  -- `co_consumer`
  unfoldable pub consumer : Bool → List Bool → Mid E → Mid E
  unfolding consumer_turns consumer_drain consumer_end
  consumer split turns m =
      let m' = consumer_drain guard_laps split (consumer_turns split turns m) in
      if split then m' else consumer_end m'

  unfoldable pub reaper_turns : List Bool → Mid E → Mid E
  reaper_turns [] m = m
  reaper_turns (enabled ∷ more) m = reaper_turns more (if enabled then reaper_lap ops p m else m)

  -- `while (!llist_empty(&s->done_list) && guard-- > 0)`
  unfoldable pub reaper_drain : ℕ → Mid E → Mid E
  reaper_drain zero m = m
  reaper_drain (suc guard) m =
      let rest = reaper_drain guard (reaper_lap ops p m) in
      if length (m.shard).done_list == 0 then m else rest

  -- The end of the reaper.
  unfoldable pub reaper_end : Mid E → Mid E
  reaper_end m =
      let m' = reap ops p (on_shard ops p (force_complete p) m) in
      if p.gpupull then on_shard ops p (drain_returns p) (release_held m') else m'

  -- `co_reaper`
  unfoldable pub reaper : List Bool → Mid E → Mid E
  unfolding reaper_turns reaper_drain reaper_end
  reaper turns m = reaper_end (reaper_drain guard_laps (reaper_turns turns m))
