-- ===== src/Middle/Complete.antt =====
-- Completions of backend reads: `nvmev_co_backend_done`, `co_timeout_scan`, `co_force_complete`.
use gpu_fpga_dma.Base.{
  ℕ, zero, suc, ◌+◌, ◌*◌, Bool, ◌&&◌, List, [], ◌∷◌, ◌==◌, ltb, leb, if◌then◌else◌, Array, update,
}
use gpu_fpga_dma.Base.Words.{sub64}
use gpu_fpga_dma.Cookie.{
  ck_shard, ck_slot, ck_gen, gs_make, gs_state, gs_gen, pend_issued, pend_done, pend_error,
}
use gpu_fpga_dma.Shard.{Shard, set_page}
use gpu_fpga_dma.Middle.{Ops, Params, Mid, inc}

-- The end of a read whose word was exchanged: the page goes to the head of the done list.
abbrev pub finish : Shard → ℕ → ℕ → Shard
finish s slot word = record (set_page s slot (record (s.pend slot) { genstate = word })) {
  done_list = slot ∷ s.done_list;
}

-- `nvmev_co_backend_done` on the shard that the cookie names. The compare-and-exchange fails, and
-- the completion is dropped, unless the slot is in flight in the cookie's generation.
unfoldable pub complete : Params → Shard → ℕ → ℕ → Shard
complete p s cookie status =
    let slot = ck_slot cookie in
    let expect = gs_make (ck_gen cookie) pend_issued in
    let want = gs_make (ck_gen cookie) (if status == 0 then pend_done else pend_error) in
    if ltb slot p.pend_cap && ((s.pend slot).genstate == expect) then finish s slot want else s

-- `nvmev_co_backend_done`, over all shards.
unfoldable pub backend_done : Params → Array Shard → ℕ → ℕ → Array Shard
backend_done p shards cookie status =
    let k = ck_shard cookie in
    if ltb k p.n_shards then update shards k (complete p (shards k) cookie status) else shards

-- The completions of one `poll`, as they reach this shard.
unfoldable pub complete_each : Params → Shard → List (ℕ × ℕ) → Shard
complete_each p s [] = s
complete_each p s ((cookie, status) ∷ cs) =
    complete_each p
      (if (ck_shard cookie == s.id) && ltb s.id p.n_shards then complete p s cookie status else s)
      cs

module _ {E : Type 0} (ops : Ops E) (p : Params) where
  -- The test of one slot by the timeout sweep.
  abbrev pub stuck : Shard → ℕ → ℕ → ℕ → Bool
  stuck s now thresh i =
      (gs_state (s.pend i).genstate == pend_issued) && leb thresh (sub64 now (s.pend i).issue_ns)

  -- `for (i = 0; i < g_pend_cap; i++)` of the sweep: `i` slots are left of the `n`.
  unfoldable pub timeout_from : ℕ → ℕ → ℕ → ℕ → Mid E → Mid E
  timeout_from zero i now thresh m = m
  timeout_from (suc n) i now thresh m =
      let s = m.shard in
      timeout_from n (i + 1) now thresh (
        if stuck s now thresh i
        then record m {
          shard = finish s i (gs_make (gs_gen (s.pend i).genstate) pend_error);
          stats = record (m.stats) { timeouts = inc (m.stats).timeouts };
        }
        else m)

  -- `co_timeout_scan`
  unfoldable pub timeout_scan : Mid E → Mid E
  timeout_scan m =
      if p.timeout_us == 0
      then m
      else (let (now, env) = ops.local_clock m.env in
          let m' = record m { env = env } in
          if ltb (sub64 now (m.shard).last_scan_ns) 1000000
          then m'
          else timeout_from p.pend_cap 0 now (p.timeout_us * 1000)
              (record m' { shard = record (m.shard) { last_scan_ns = now } }))

-- `co_force_complete`: every read in flight ends in error.
unfoldable pub force_from : ℕ → ℕ → Shard → Shard
force_from zero i s = s
force_from (suc n) i s = force_from n (i + 1) (
    if gs_state (s.pend i).genstate == pend_issued
    then finish s i (gs_make (gs_gen (s.pend i).genstate) pend_error)
    else s)

unfoldable pub force_complete : Params → Shard → Shard
force_complete p s = force_from p.pend_cap 0 s
