-- ===== src/Setup/Init/Balance.antt =====
-- What a failed load of the middle layer gives back, and what its unloading does.
use gpu_fpga_dma.Base.{
  ℕ, ◌+◌, ◌-◌, ◌≡◌, refl, subst, ap, ◌∙◌, Bool, true, false, not, List, [], ◌∷◌, arith, Array,
  if-both,
}
use gpu_fpga_dma.Shard.Chain.{total-zero}
use gpu_fpga_dma.Setup.{Geometry}
use gpu_fpga_dma.Setup.Init.{
  Text, Kernel, model, Memory, no_memory, World, Loaded, started, enomem, backend_error,
  device_error, thread_error, kvfree, shards_init, shards_free, threads_init, stop_all,
  stop_threads, free_regions, err_free, err_stop, init_threads, init_shards, init_desc,
  init_staging, init_region, backend_up, dup_freed, with_dup, coalesce_init, coalesce_exit,
  unloaded, provider_of, paths_of,
}
use gpu_fpga_dma.Setup.Init.Counts.{
  Balanced, held, upto-all, room, kvfree-live, free_from-live, stop_all-live, rooms, threads,
  regions,
}
use gpu_fpga_dma.Setup.Init.Loops.{shards_init-Filled, held_none, threads_init-Staffed}

module _ {E : Type 0} {h : Kernel E} {live : E → ℕ} {mem backend device thread : ℕ}
    (law : Balanced h live mem backend device thread) where
  kvfree_regions-live : (w : World E) → live (free_regions h w).env ≡ live w.env - regions law w
  unfolding free_regions
  kvfree_regions-live w =
      let e1 = kvfree h w.desc w.env in
      let e2 = kvfree h w.staging e1 in
      omega (
        arith,
        kvfree-live law w.desc w.env,
        kvfree-live law w.staging e1,
        kvfree-live law w.region e2,
      )

  shards_free-live :
      (n : ℕ) (w : World E) → live (shards_free h n w).env ≡ live w.env - rooms law n w
  unfolding shards_free
  shards_free-live n w =
      let f = λ (i : ℕ). room mem (w.shard i) in
      omega (arith, free_from-live law n 0 w.shard w.env, upto-all n f)

  stop_threads-live :
      (n : ℕ) (w : World E) → live (stop_threads h n w).env ≡ live w.env - threads law n w
  unfolding stop_threads
  stop_threads-live n w = omega (
    arith,
    stop_all-live law n 0 w.task w.env,
    stop_all-live law n 0 w.reaper (stop_all h n 0 w.task w.env),
    upto-all n (λ i. held (w.task i) thread),
    upto-all n (λ i. held (w.reaper i) thread),
  )

  err_free-live :
      (n : ℕ) (w : World E)
      → live (err_free h n w).env ≡ live w.env - (rooms law n w + regions law w + backend)
  unfolding err_free
  err_free-live n w =
      let t = shards_free h n w in
      omega (arith, law.down (free_regions h t).env, kvfree_regions-live t, shards_free-live n w)

  err_stop-live :
      (n : ℕ) (w : World E)
      → live (err_stop h n w).env
        ≡ live w.env - (threads law n w + device + rooms law n w + regions law w + backend)
  unfolding err_stop
  err_stop-live n w =
      let t = stop_threads h n w in
      let u : World E = record t { env = h.misc_deregister t.env } in
      omega (arith, err_free-live n u, law.deregister t.env, stop_threads-live n w)

  -- What loading leaves: all is held if the module is started, and nothing otherwise.
  abbrev pub Leaves : ℕ → ℕ → Loaded × World E → Type 0
  Leaves n before (started, t) =
      (t.running ≡ true)
      × (live t.env ≡ before + (threads law n t + device + rooms law n t + regions law t + backend))
  Leaves n before (enomem, t) = (t.running ≡ false) × (live t.env ≡ before)
  Leaves n before (backend_error, t) = (t.running ≡ false) × (live t.env ≡ before)
  Leaves n before (device_error, t) = (t.running ≡ false) × (live t.env ≡ before)
  Leaves n before (thread_error, t) = (t.running ≡ true) × (live t.env ≡ before)

  -- No shard has memory or a thread.
  record Bare (w : World E) : Type 0 where
    no_tasks : w.task ≡ (λ _. false)
    no_reapers : w.reaper ≡ (λ _. false)
    off : w.running ≡ false

  none_run : (n : ℕ) (w : World E) → Bare w → threads law n w ≡ 0
  none_run n w v = omega (
    arith,
    total-zero n (λ i. held (w.task i) thread)
        (λ i _. ap (λ (f : Array Bool). held (f i) thread) v.no_tasks ∙ held_none law),
    total-zero n (λ i. held (w.reaper i) thread)
        (λ i _. ap (λ (f : Array Bool). held (f i) thread) v.no_reapers ∙ held_none law),
  )

  init_threads-Leaves :
      (split : Bool) (n before : ℕ) (w : World E)
      → Bare w
      → live w.env ≡ before + (device + rooms law n w + regions law w + backend)
      → Leaves n before (init_threads h split n w)
  unfolding init_threads err_stop
  init_threads-Leaves split n before w bare e =
      let on : World E = record w { running = true } in
      let v = threads_init-Staffed law n n 0 split on (omega arith) (λ i le. (
        ap (λ (f : Array Bool). f i) bare.no_tasks,
        ap (λ (f : Array Bool). f i) bare.no_reapers,
      )) in
      let t = (threads_init h split n 0 on).1 in
      let counted : live t.env
          ≡ before + (threads law n t + device + rooms law n t + regions law t + backend) =
        omega (
          arith,
          v.counted,
          e,
          none_run n w bare,
          ap (rooms law n) v.rest,
          ap (regions law) v.rest,
        ) in
      if-both (Leaves n before) (threads_init h split n 0 on).0 (started, t)
        (thread_error, err_stop h n t) (λ _. (ap (λ (x : World E). x.running) v.rest, counted))
        (λ _. (ap (λ (x : World E). x.running) v.rest, omega (arith, err_stop-live n t, counted)))

  held_off : (b : Bool) (m : ℕ) → not b ≡ true → held b m ≡ 0
  unfolding held
  held_off false m e = refl
  held_off true m e = ground arith

  held_on : (b : Bool) (m : ℕ) → not b ≡ false → held b m ≡ m
  unfolding held
  held_on true m e = refl
  held_on false m e = ground arith

  init_shards-Leaves :
      (split : Bool) (n before : ℕ) (w : World E)
      → Bare w
      → w.shard ≡ (λ _. no_memory)
      → live w.env ≡ before + (regions law w + backend)
      → Leaves n before (init_shards h split n w)
  unfolding init_shards err_free
  init_shards-Leaves split n before w bare none_yet e =
      let v =
        shards_init-Filled law n n 0 w (omega arith)
          (λ i le. ap (λ (f : Array Memory). f i) none_yet) in
      let t = (shards_init h n 0 w).1 in
      let r = h.misc_register t.env in
      let none_there : rooms law n w ≡ 0 =
        total-zero n (λ i. room mem (w.shard i))
          (λ i _. ap (λ (f : Array Memory). room mem (f i)) none_yet) in
      let counted : live t.env ≡ before + (rooms law n t + regions law t + backend) =
        omega (arith, v.counted, none_there, e, ap (regions law) v.rest) in
      let u : World E = record t { env = r.1 } in
      let stays_off : t.running ≡ false = ap (λ (x : World E). x.running) v.rest ∙ bare.off in
      if-both (Leaves n before) (not (shards_init h n 0 w).0) (enomem, err_free h n t) _
        (λ _. (stays_off, omega (arith, err_free-live n t, counted)))
        (λ _.
          if-both (Leaves n before) (not r.0) (device_error, err_free h n u)
            (init_threads h split n u)
            (λ off. (
              stays_off,
              omega
                  (arith, err_free-live n u, counted, law.register t.env, held_off r.0 device off),
            ))
            (λ on.
              init_threads-Leaves split n before u
                (record {
                  no_tasks = ap (λ (x : World E). x.task) v.rest ∙ bare.no_tasks;
                  no_reapers = ap (λ (x : World E). x.reaper) v.rest ∙ bare.no_reapers;
                  off = stays_off;
                })
                (omega (arith, counted, law.register t.env, held_on r.0 device on))))

  held_mem : (held true mem ≡ mem) × (held false mem ≡ 0)
  unfolding held
  held_mem = (refl, refl)

  held_backend : (held true backend ≡ backend) × (held false backend ≡ 0)
  unfolding held
  held_backend = (refl, refl)

  abbrev with_regions : E → Bool → Bool → Bool → World E
  with_regions env a b c = record (unloaded env) { region = a; staging = b; desc = c }

  init_desc-Leaves :
      (split : Bool) (n before : ℕ) (old : E) (r : Bool × E)
      → live r.1 ≡ before + (mem + mem + held r.0 mem + backend)
      → Leaves n before (init_desc h split n (with_regions old true true false) r)
  unfolding init_desc
  init_desc-Leaves split n before old (false, env) e = (
    refl,
    omega (arith, e, law.free env, law.free (h.free env), law.down (h.free (h.free env)), held_mem),
  )
  init_desc-Leaves split n before old (true, env) e =
      init_shards-Leaves split n before (with_regions env true true true)
        (record { no_tasks = refl; no_reapers = refl; off = refl }) refl
        (omega (arith, e, held_mem))

  init_staging-Leaves :
      (split : Bool) (n before : ℕ) (old : E) (r : Bool × E)
      → live r.1 ≡ before + (mem + held r.0 mem + backend)
      → Leaves n before (init_staging h split n (with_regions old true false false) r)
  unfolding init_staging
  init_staging-Leaves split n before old (false, env) e =
      (refl, omega (arith, e, law.free env, law.down (h.free env), held_mem))
  init_staging-Leaves split n before old (true, env) e =
      init_desc-Leaves split n before env (h.alloc env) (omega (arith, e, law.alloc env, held_mem))

  init_region-Leaves :
      (split : Bool) (n before : ℕ) (old : E) (r : Bool × E)
      → live r.1 ≡ before + (held r.0 mem + backend)
      → Leaves n before (init_region h split n (unloaded old) r)
  unfolding init_region
  init_region-Leaves split n before old (false, env) e =
      (refl, omega (arith, e, law.down env, held_mem))
  init_region-Leaves split n before old (true, env) e =
      init_staging-Leaves split n before env (h.alloc env)
        (omega (arith, e, law.alloc env, held_mem))

  backend_up-Leaves :
      (split : Bool) (n before : ℕ) (old : E) (r : Bool × E)
      → live r.1 ≡ before + held r.0 backend
      → Leaves n before (backend_up h split n (unloaded old) r)
  unfolding backend_up
  backend_up-Leaves split n before old (false, env) e = (refl, omega (arith, e, held_backend))
  backend_up-Leaves split n before old (true, env) e =
      init_region-Leaves split n before old (h.alloc env)
        (omega (arith, e, law.alloc env, held_backend))

  with_dup-Leaves :
      (split : Bool) (g : Geometry) (paths : List Text) (before : ℕ) (old : E) (r : Bool × E)
      → live r.1 ≡ before + held r.0 mem
      → Leaves g.n_shards before (with_dup h split g paths (unloaded old) r)
  unfolding with_dup dup_freed
  with_dup-Leaves split g paths before old (false, env) e = (refl, omega (arith, e, held_mem))
  with_dup-Leaves split g paths before old (true, env) e =
      let q = provider_of paths in
      let up = h.backend_init q paths g.pend_cap g.page env in
      backend_up-Leaves split g.n_shards before old (up.0, h.free up.1)
        (omega (arith, e, law.up q paths g.pend_cap g.page env, law.free up.1, held_mem))

  pub coalesce_init-Leaves :
      (text : Text) (split : Bool) (g : Geometry) (env : E)
      → Leaves g.n_shards (live env) (coalesce_init h text split g (unloaded env))
  unfolding coalesce_init
  coalesce_init-Leaves [] split g env =
      backend_up-Leaves split g.n_shards (live env) env
        (h.backend_init model [] g.pend_cap g.page env) (law.up model [] g.pend_cap g.page env)
  coalesce_init-Leaves (ch ∷ text) split g env =
      with_dup-Leaves split g (paths_of (ch ∷ text)) (live env) env (h.alloc env) (law.alloc env)

  exit-live :
      (n : ℕ) (w : World E)
      → w.running ≡ true
      → live (coalesce_exit h n w).env
        ≡ live w.env - (threads law n w + device + rooms law n w + regions law w + backend)
  unfolding coalesce_exit
  exit-live n w on =
      let t = stop_threads h n w in
      let u : World E = record t { env = h.backend_exit (h.misc_deregister t.env) } in
      rw on (
        omega (
          arith,
          kvfree_regions-live (shards_free h n u),
          shards_free-live n u,
          law.down (h.misc_deregister t.env),
          law.deregister t.env,
          stop_threads-live n w,
        ))

  -- Unloading after a successful load gives everything back.
  pub coalesce_exit-Frees :
      (text : Text) (split : Bool) (g : Geometry) (env : E) (t : World E)
      → coalesce_init h text split g (unloaded env) ≡ (started, t)
      → live (coalesce_exit h g.n_shards t).env ≡ live env
  coalesce_exit-Frees text split g env t e =
      let v = subst (Leaves g.n_shards (live env)) e (coalesce_init-Leaves text split g env) in
      omega (arith, exit-live g.n_shards t v.0, v.1)
