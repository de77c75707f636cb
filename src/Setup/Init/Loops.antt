-- ===== src/Setup/Init/Loops.antt =====
-- The loops of `nvmev_coalesce_init` over the shards: the memory of each, and its threads.
use gpu_fpga_dma.Base.{
  ℕ, zero, suc, ◌+◌, ◌≤◌, ◌<◌, ◌≡◌, ◌≢◌, refl, ap, ◌∙◌, Bool, true, false, arith, update, update_ne,
  if◌then◌else◌, if-both,
}
use gpu_fpga_dma.Setup.Init.{
  Kernel, Memory, no_memory, World, shard_alloc, shards_init, reaper_start, thread_start,
  threads_init,
}
use gpu_fpga_dma.Setup.Init.Counts.{
  Balanced, held, total-set, room, shard_alloc-live, rooms, threads,
}

module _ {E : Type 0} {h : Kernel E} {live : E → ℕ} {mem backend device thread : ℕ}
    (law : Balanced h live mem backend device thread) where
  -- What the loop over the shards does from `w` to `t`: the memory is counted, the rest stays.
  pub record Filled (n : ℕ) (w t : World E) : Type 0 where
    pub counted : live t.env + rooms law n w ≡ live w.env + rooms law n t
    pub rest : t ≡ record w { shard = t.shard; env = t.env }

  pub Filled-join : {n : ℕ} {w u t : World E} → Filled n w u → Filled n u t → Filled n w t
  Filled-join {t = t} v v' = record {
    counted = omega (arith, v.counted, v'.counted);
    rest = v'.rest ∙ ap (λ (x : World E). record x { shard = t.shard; env = t.env }) v.rest;
  }

  pub kept-Filled :
      (n k : ℕ) (w : World E)
      → k < n
      → w.shard k ≡ no_memory
      → Filled n w (record w {
        shard = update w.shard k (shard_alloc h w.env).1;
        env = (shard_alloc h w.env).2;
      })
  kept-Filled n k w lt null = record {
    counted = omega (
      arith,
      shard_alloc-live law w.env,
      total-set n k w.shard (shard_alloc h w.env).1 (room mem) lt,
      ap (room mem) null,
    );
    rest = refl;
  }

  pub shards_stop : (k : ℕ) (w : World E) → shards_init h 0 k w ≡ (true, w)
  unfolding shards_init
  shards_stop k w = refl

  abbrev pub kept : ℕ → World E → Bool × Memory × E → World E
  kept k w r = record w { shard = update w.shard k r.1; env = r.2 }

  pub shards_step :
      (n k : ℕ) (w : World E)
      → shards_init h (suc n) k w ≡ (
          if (shard_alloc h w.env).0
          then shards_init h n (k + 1) (kept k w (shard_alloc h w.env))
          else (false, kept k w (shard_alloc h w.env)))
  unfolding shards_init
  shards_step n k w = refl

  pub shards_init-Filled :
      (m n k : ℕ) (w : World E)
      → k + n ≡ m
      → ((i : ℕ) → k ≤ i → w.shard i ≡ no_memory)
      → Filled m w (shards_init h n k w).1
  shards_init-Filled m zero k w e null =
      rw (shards_stop k w) (record { counted = refl; rest = refl })
  shards_init-Filled m (suc n) k w e null =
      let one = kept-Filled m k w (omega (arith, e)) (null k (omega arith)) in
      let r = shard_alloc h w.env in
      rw (shards_step n k w) (
        if-both (λ (t : Bool × World E). Filled m w t.1) r.0 (shards_init h n (k + 1) (kept k w r))
          (false, kept k w r)
          (λ _. Filled-join one (
            shards_init-Filled m n (k + 1) (kept k w r) (omega (arith, e)) (λ i le.
              (let ne : k ≢ i = omega (arith, le) in update_ne w.shard r.1 ne)
              ∙ null i (omega (arith, le)))))
          (λ _. one))

  pub record Staffed (n : ℕ) (w t : World E) : Type 0 where
    pub counted : live t.env + threads law n w ≡ live w.env + threads law n t
    pub rest : t ≡ record w { task = t.task; reaper = t.reaper; env = t.env }

  pub Staffed-join : {n : ℕ} {w u t : World E} → Staffed n w u → Staffed n u t → Staffed n w t
  Staffed-join {t = t} v v' = record {
    counted = omega (arith, v.counted, v'.counted);
    rest =
        v'.rest
        ∙ ap (λ (x : World E). record x { task = t.task; reaper = t.reaper; env = t.env }) v.rest;
  }

  pub held_none : held false thread ≡ 0
  unfolding held
  held_none = refl

  pub reaper_start-Staffed :
      (n k : ℕ) (split : Bool) (w : World E)
      → k < n
      → w.reaper k ≡ false
      → Staffed n w (reaper_start h split k w).1
  unfolding reaper_start
  reaper_start-Staffed n k false w lt none_yet = record { counted = refl; rest = refl }
  reaper_start-Staffed n k true w lt none_yet = record {
    counted = omega (
      arith,
      law.create w.env,
      total-set n k w.reaper (h.kthread_create w.env).0 (λ b. held b thread) lt,
      ap (λ b. held b thread) none_yet,
      held_none,
    );
    rest = refl;
  }

  abbrev pub tasked : ℕ → World E → World E
  tasked k w = record w {
    task = update w.task k (h.kthread_create w.env).0;
    env = (h.kthread_create w.env).1;
  }

  pub task-Staffed : (n k : ℕ) (w : World E) → k < n → w.task k ≡ false → Staffed n w (tasked k w)
  task-Staffed n k w lt none_yet = record {
    counted = omega (
      arith,
      law.create w.env,
      total-set n k w.task (h.kthread_create w.env).0 (λ b. held b thread) lt,
      ap (λ b. held b thread) none_yet,
      held_none,
    );
    rest = refl;
  }

  pub thread_start-Staffed :
      (n k : ℕ) (split : Bool) (w : World E)
      → k < n
      → (w.task k ≡ false) × (w.reaper k ≡ false)
      → Staffed n w (thread_start h split k w).1
  unfolding thread_start
  thread_start-Staffed n k split w lt none_yet =
      let one = task-Staffed n k w lt none_yet.0 in
      if-both (λ (t : Bool × World E). Staffed n w t.1) (h.kthread_create w.env).0
        (reaper_start h split k (tasked k w)) (false, tasked k w)
        (λ _. Staffed-join one (reaper_start-Staffed n k split (tasked k w) lt none_yet.1))
        (λ _. one)

  abbrev pub SameThreads : ℕ → World E → Bool × World E → Type 0
  SameThreads i w t = (t.1.task i ≡ w.task i) × (t.1.reaper i ≡ w.reaper i)

  pub reaper_start-others :
      (k i : ℕ) (split : Bool) (w : World E) → k ≢ i → SameThreads i w (reaper_start h split k w)
  unfolding reaper_start
  reaper_start-others k i false w ne = (refl, refl)
  reaper_start-others k i true w ne = (refl, update_ne w.reaper (h.kthread_create w.env).0 ne)

  -- Starting the threads law of shard `k` touches no other shard.
  pub thread_start-others :
      (k i : ℕ) (split : Bool) (w : World E) → k ≢ i → SameThreads i w (thread_start h split k w)
  unfolding thread_start
  thread_start-others k i split w ne =
      let own = update_ne w.task (h.kthread_create w.env).0 ne in
      let after = reaper_start-others k i split (tasked k w) ne in
      if-both (SameThreads i w) (h.kthread_create w.env).0 (reaper_start h split k (tasked k w))
        (false, tasked k w) (λ _. (after.0 ∙ own, after.1)) (λ _. (own, refl))

  pub threads_stop : (k : ℕ) (split : Bool) (w : World E) → threads_init h split 0 k w ≡ (true, w)
  unfolding threads_init
  threads_stop k split w = refl

  pub threads_step :
      (n k : ℕ) (split : Bool) (w : World E)
      → threads_init h split (suc n) k w ≡ (
          if (thread_start h split k w).0
          then threads_init h split n (k + 1) (thread_start h split k w).1
          else (false, (thread_start h split k w).1))
  unfolding threads_init
  threads_step n k split w = refl

  pub threads_init-Staffed :
      (m n k : ℕ) (split : Bool) (w : World E)
      → k + n ≡ m
      → ((i : ℕ) → k ≤ i → (w.task i ≡ false) × (w.reaper i ≡ false))
      → Staffed m w (threads_init h split n k w).1
  threads_init-Staffed m zero k split w e null =
      rw (threads_stop k split w) (record { counted = refl; rest = refl })
  threads_init-Staffed m (suc n) k split w e null =
      let one = thread_start-Staffed m k split w (omega (arith, e)) (null k (omega arith)) in
      let r = thread_start h split k w in
      rw (threads_step n k split w) (
        if-both (λ (t : Bool × World E). Staffed m w t.1) r.0 (threads_init h split n (k + 1) r.1)
          (false, r.1)
          (λ _. Staffed-join one (
            threads_init-Staffed m n (k + 1) split r.1 (omega (arith, e)) (λ i le.
              let same = thread_start-others k i split w (ground arith) in
              (same.0 ∙ (null i (omega (arith, le))).0, same.1 ∙ (null i (omega (arith, le))).1))))
          (λ _. one))
