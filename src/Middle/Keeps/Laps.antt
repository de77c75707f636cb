-- ===== src/Middle/Keeps/Laps.antt =====
-- `co_reaper_lap`: the phases of the reaper's lap in their order.
use gpu_fpga_dma.Base.{ℕ, false, if-both}
use gpu_fpga_dma.Middle.{Params, Ops, Mid}
use gpu_fpga_dma.Middle.Complete.{timeout_scan}
use gpu_fpga_dma.Middle.Reap.{reap}
use gpu_fpga_dma.Middle.Lap.{poll_backend, reaper_lap}
use gpu_fpga_dma.Middle.Keeps.Back.{Posts}
use gpu_fpga_dma.Middle.Keeps.Issue.{Books}
use gpu_fpga_dma.Middle.Keeps.Settle.{poll_backend-Books, timeout_scan-Books}
use gpu_fpga_dma.Middle.Keeps.Reap.{reap-Books}
use gpu_fpga_dma.Middle.Keeps.Release.{gpu_reclaim-Books}

-- `co_reaper_lap` keeps the books: if the pools are in order and each request `r` is `n r` times in
-- the window, in a bucket, with an undelivered waiter or posted, then so it is after the lap,
-- whatever completions the backend reports, late or doubled ones too, and whatever reads time out.
pub reaper_lap-Books :
    {E : Type 0} (ops : Ops E) (p : Params) (posted : E → ℕ → ℕ) (law : Posts ops posted)
    (n : ℕ → ℕ) (m : Mid E)
    → Books p posted n m
    → Books p posted n (reaper_lap ops p m)
unfolding reaper_lap
reaper_lap-Books ops p posted law n m v =
    let v1 = poll_backend-Books ops p posted n law m v in
    let v2 = timeout_scan-Books ops p posted n law (poll_backend ops p m) v1 in
    let v3 = reap-Books ops p posted law n (timeout_scan ops p (poll_backend ops p m)) v2 in
    let m' = reap ops p (timeout_scan ops p (poll_backend ops p m)) in
    if-both (Books p posted n) p.gpupull _ _
      (λ _. gpu_reclaim-Books p posted n (ops.gring_tail m'.env) false m' v3) (λ _. v3)
