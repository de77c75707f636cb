-- ===== src/Middle/Keeps/Settle.antt =====
-- The books of a shard over completions and the timeout sweep.
use gpu_fpga_dma.Base.{
  subst, sym, ℕ, zero, suc, ◌+◌, ◌*◌, ◌≡◌, refl, arith, ◌==◌, ltb, if-both, Option-cases, inl, inr,
}
use gpu_fpga_dma.Base.Words.{sub64}
use gpu_fpga_dma.Cookie.{gs_gen, pend_error}
use gpu_fpga_dma.Shard.{Shard}
use gpu_fpga_dma.Shard.Pools.Account.{elsewhere}
use gpu_fpga_dma.Middle.{Params, Ops, Mid, Stats}
use gpu_fpga_dma.Middle.Lap.{poll_backend}
use gpu_fpga_dma.Middle.Complete.{complete, timeout_from, timeout_scan, force_complete, stuck}
use gpu_fpga_dma.Middle.Keeps.Back.{Posts}
use gpu_fpga_dma.Middle.Keeps.Issue.{Books, unissued, binned}
use gpu_fpga_dma.Middle.Keeps.Finish.{
  InOrder, finish-InOrder, complete-InOrder, complete_each-InOrder, force_from-InOrder,
}

-- What a completion leaves of the books.
module _ {E : Type 0} (ops : Ops E) (p : Params) (posted : E → ℕ → ℕ) (n : ℕ → ℕ) where
  settled :
      (m : Mid E) (s : Shard) (st : Stats) (env : E) (v : Books p posted n m)
      → ((r : ℕ) → posted env r ≡ posted m.env r)
      → InOrder p m.shard v.waits s
      → Books p posted n (record { shard = s; stats = st; env = env })
  settled m s st env v same w = record {
    waits = v.waits;
    account = w.0;
    balance = λ r.
        subst (λ (t : Shard). unissued t r + binned p t r + v.waits r + posted env r ≡ n r)
          (sym w.1) (omega (arith, v.balance r, same r));
  }

  -- Any completion, in time, late or doubled, keeps the books: it finishes a slot that is in flight
  -- in its generation, or changes nothing.
  pub complete-Books :
      (m : Mid E) (cookie status : ℕ)
      → Books p posted n m
      → Books p posted n (record m { shard = complete p (m.shard) cookie status })
  complete-Books m cookie status v =
      settled m _ m.stats m.env v (λ r. refl)
        (complete-InOrder p m.shard v.waits m.shard cookie status (v.account, refl))

  -- `co_force_complete`
  pub force_complete-Books :
      (m : Mid E)
      → Books p posted n m
      → Books p posted n (record m { shard = force_complete p (m.shard) })
  unfolding force_complete
  force_complete-Books m v =
      settled m _ m.stats m.env v (λ r. refl)
        (force_from-InOrder p m.shard v.waits p.pend_cap 0 m.shard (v.account, refl))

  timeout_from-Books :
      (f i now thresh : ℕ) (m : Mid E)
      → Books p posted n m
      → Books p posted n (timeout_from ops p f i now thresh m)
  unfolding timeout_from
  timeout_from-Books zero i now thresh m v = v
  timeout_from-Books (suc f) i now thresh m v = timeout_from-Books f (i + 1) now thresh _ (
      if-both (Books p posted n) (stuck ops p m.shard now thresh i) _ _
        (λ e.
          settled m _ _ m.env v (λ r. refl)
            (finish-InOrder p m.shard v.waits m.shard i (gs_gen ((m.shard).pend i).genstate)
              pend_error (v.account, refl) (ground arith) (omega arith, ground arith)))
        (λ _. v))

  module _ (law : Posts ops posted) where
    pub timeout_scan-Books :
        (m : Mid E) → Books p posted n m → Books p posted n (timeout_scan ops p m)
    unfolding timeout_scan
    timeout_scan-Books m v =
        let now = (ops.local_clock m.env).0 in
        let env = (ops.local_clock m.env).1 in
        if-both (Books p posted n) (p.timeout_us == 0) _ _ (λ _. v)
          (λ _.
            if-both (Books p posted n) (ltb (sub64 now (m.shard).last_scan_ns) 1000000) _ _
              (λ _. settled m m.shard m.stats env v (law.clock_posts m.env) (v.account, refl))
              (λ _. timeout_from-Books p.pend_cap 0 now (p.timeout_us * 1000) _ (
                settled m (record (m.shard) { last_scan_ns = now }) m.stats env v
                  (law.clock_posts m.env)
                  (elsewhere (record (m.shard) { last_scan_ns = now }) v.account, refl))))

    pub poll_backend-Books :
        (m : Mid E) → Books p posted n m → Books p posted n (poll_backend ops p m)
    unfolding poll_backend
    poll_backend-Books m v = elim (Option-cases ops.poll) [
      | inl e ↦ rw (e, poll_backend) v
      | inr (poll, e) ↦
          rw (e, poll_backend)
            (settled m _ m.stats _ v (law.poll_posts poll e m.env (m.shard).id) (
              complete_each-InOrder p m.shard v.waits (poll m.env (m.shard).id).0 m.shard
                (v.account, refl)))
    ]
