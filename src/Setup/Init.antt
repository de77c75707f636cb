-- ===== src/Setup/Init.antt =====
-- Loading and unloading the middle layer: `nvmev_coalesce_init` and `nvmev_coalesce_exit` of
-- control/nvmevirt/coalesce.c, for what they allocate, start and register. What they compute is in Setup.
pub mod Counts
pub mod Loops
pub mod Balance
use gpu_fpga_dma.Base.{
  ℕ, zero, suc, ◌+◌, max, not, ltb, Bool, true, false, ◌&&◌, List, [], ◌∷◌, ◌==◌, if◌then◌else◌,
  Array, update, take, length,
}
use gpu_fpga_dma.Setup.{Geometry}

-- Text as its character codes.
abbrev pub Text : Type 0
Text = List ℕ

pub data Provider : Type 0 where
  model : Provider
  nvme : Provider
  direct : Provider

-- The kernel and the providers, over the state `E` of the machine; a flag is true for success.
-- `alloc` is any one of `vmalloc_user`, `kvcalloc`, `kvmalloc_array` and `kstrdup`, `free` of `vfree`,
-- `kvfree` and `kfree`.
pub record Kernel (E : Type 0) : Type 0 where
  pub alloc : E → Bool × E
  pub free : E → E
  pub backend_init : Provider → List Text → ℕ → ℕ → E → Bool × E
  pub backend_exit : E → E
  pub misc_register : E → Bool × E
  pub misc_deregister : E → E
  pub kthread_create : E → Bool × E
  pub kthread_stop : E → E

-- `strsep` over the whole text.
abbrev comma : ℕ
comma = 44

unfoldable pub prepend : ℕ → List Text → List Text
prepend ch [] = (ch ∷ []) ∷ []
prepend ch (tok ∷ toks) = (ch ∷ tok) ∷ toks

unfoldable pub strsep : Text → List Text
unfolding prepend
strsep [] = [] ∷ []
strsep (ch ∷ text) = let toks = strsep text in if ch == comma then [] ∷ toks else prepend ch toks

unfoldable pub nonempty : List Text → List Text
nonempty [] = []
nonempty ([] ∷ toks) = nonempty toks
nonempty ((ch ∷ tok) ∷ toks) = (ch ∷ tok) ∷ nonempty toks

-- `paths`, of `CO_MAX_DEVS` entries.
unfoldable pub paths_of : Text → List Text
unfolding strsep nonempty
paths_of text = take 8 (nonempty (strsep text))

-- `!strncmp(path, "pci:", 4)`
unfoldable pub is_pci : Text → Bool
is_pci (a ∷ b ∷ c ∷ d ∷ _) = (a == 112) && (b == 99) && (c == 105) && (d == 58)
is_pci _ = false

unfoldable pub provider_of : List Text → Provider
unfolding is_pci
provider_of [] = nvme
provider_of (path ∷ _) = if is_pci path then direct else nvme

-- The memory of a shard, each buffer as a flag that is false for NULL: `win`, `scr` and `htab`; the five
-- arrays and the three of the buckets that `co_shard_pools_alloc` asks for.
pub record Memory : Type 0 where
  pub windows : List Bool
  pub pools : List Bool
  pub buckets : List Bool

abbrev pub no_memory : Memory
no_memory = record { windows = []; pools = []; buckets = [] }

-- The globals: `g_shard` with the two threads of each shard, `g_region`, `g_staging`, `g_desc`, `g_running`.
pub record World (E : Type 0) : Type 0 where
  pub shard : Array Memory
  pub task : Array Bool
  pub reaper : Array Bool
  pub region : Bool
  pub staging : Bool
  pub desc : Bool
  pub running : Bool
  pub env : E

pub data Loaded : Type 0 where
  started : Loaded
  enomem : Loaded
  backend_error : Loaded
  device_error : Loaded
  thread_error : Loaded

unfoldable pub all_there : List Bool → Bool
all_there [] = true
all_there (b ∷ bs) = b && all_there bs

module _ {E : Type 0} (h : Kernel E) where
  -- `n` allocations in a row, which are checked together.
  unfoldable pub alloc_all : ℕ → E → List Bool × E
  alloc_all zero env = ([], env)
  alloc_all (suc n) env =
      let (b, env') = h.alloc env in let (bs, t) = alloc_all n env' in (b ∷ bs, t)

  unfoldable pub kvfree : Bool → E → E
  kvfree false env = env
  kvfree true env = h.free env

  unfoldable pub kvfree_all : List Bool → E → E
  unfolding kvfree
  kvfree_all [] env = env
  kvfree_all (b ∷ bs) env = kvfree_all bs (kvfree b env)

  -- The allocations of `co_shard_pools_alloc`.
  unfoldable pub pools_alloc : List Bool → E → Bool × Memory × E
  unfolding alloc_all all_there
  pools_alloc windows env =
      let (pools, env1) = alloc_all 5 env in
      let (buckets, env2) = alloc_all 3 env1 in
      if all_there pools
      then (all_there buckets, record { windows = windows; pools = pools; buckets = buckets }, env2)
      else (false, record { windows = windows; pools = pools; buckets = [] }, env1)

  -- The allocations for one shard.
  unfoldable pub shard_alloc : E → Bool × Memory × E
  unfolding pools_alloc
  shard_alloc env =
      let (windows, env1) = alloc_all 3 env in
      if all_there windows
      then pools_alloc windows env1
      else (false, record { windows = windows; pools = []; buckets = [] }, env1)

  -- `co_shard_pools_free`, behind the buffers of the window, whose pointers stay.
  unfoldable pub shard_free : Memory → E → E
  unfolding kvfree_all
  shard_free m env = kvfree_all m.buckets (kvfree_all m.pools (kvfree_all m.windows env))

  unfoldable pub forget_pools : Memory → Memory
  forget_pools m = record m { pools = []; buckets = [] }

  -- Shards from `k` on, `n` of them.
  unfoldable pub shards_init : ℕ → ℕ → World E → Bool × World E
  unfolding shard_alloc
  shards_init zero k w = (true, w)
  shards_init (suc n) k w =
      let (ok, m, env) = shard_alloc w.env in
      let next = record w { shard = update w.shard k m; env = env } in
      let rest = shards_init n (k + 1) next in if ok then rest else (false, next)

  -- The loop of `err_free` and of `nvmev_coalesce_exit` over the shards.
  unfoldable pub free_from : ℕ → ℕ → Array Memory → E → E
  unfolding shard_free
  free_from zero k ms env = env
  free_from (suc n) k ms env = free_from n (k + 1) ms (shard_free (ms k) env)

  unfoldable pub shards_free : ℕ → World E → World E
  unfolding free_from forget_pools
  shards_free n w = record w {
    shard = λ i. if ltb i n then forget_pools (w.shard i) else w.shard i;
    env = free_from n 0 w.shard w.env;
  }

  -- The reaper of shard `k`, in split mode.
  unfoldable pub reaper_start : Bool → ℕ → World E → Bool × World E
  reaper_start false k w = (true, w)
  reaper_start true k w =
      let (ok, env) = h.kthread_create w.env in
      (ok, record w { reaper = update w.reaper k ok; env = env })

  unfoldable pub thread_start : Bool → ℕ → World E → Bool × World E
  unfolding reaper_start
  thread_start split k w =
      let (ok, env) = h.kthread_create w.env in
      let next = record w { task = update w.task k ok; env = env } in
      if ok then reaper_start split k next else (false, next)

  unfoldable pub threads_init : Bool → ℕ → ℕ → World E → Bool × World E
  unfolding thread_start
  threads_init split zero k w = (true, w)
  threads_init split (suc n) k w =
      let (ok, next) = thread_start split k w in
      let rest = threads_init split n (k + 1) next in if ok then rest else (false, next)

  -- `kthread_stop` of the threads that a list of `n` pointers from `k` on has.
  unfoldable pub stop_all : ℕ → ℕ → Array Bool → E → E
  stop_all zero k there env = env
  stop_all (suc n) k there env =
      stop_all n (k + 1) there (if there k then h.kthread_stop env else env)

  unfoldable pub stop_threads : ℕ → World E → World E
  unfolding stop_all
  stop_threads n w = record w { env = stop_all n 0 w.reaper (stop_all n 0 w.task w.env) }

  -- `vfree` of the three regions, which are set to NULL.
  unfoldable pub free_regions : World E → World E
  unfolding kvfree
  free_regions w = record w {
    desc = false;
    staging = false;
    region = false;
    env = kvfree w.region (kvfree w.staging (kvfree w.desc w.env));
  }

  -- From the label `err_free` on.
  unfoldable pub err_free : ℕ → World E → World E
  unfolding shards_free free_regions
  err_free n w = let t = free_regions (shards_free n w) in record t { env = h.backend_exit t.env }

  -- From the label `err_stop` on.
  unfoldable pub err_stop : ℕ → World E → World E
  unfolding err_free stop_threads
  err_stop n w = let t = stop_threads n w in err_free n (record t { env = h.misc_deregister t.env })

  -- From `g_running = true` on.
  unfoldable pub init_threads : Bool → ℕ → World E → Loaded × World E
  unfolding threads_init err_stop
  init_threads split n w =
      let (ok, t) = threads_init split n 0 (record w { running = true }) in
      if ok then (started, t) else (thread_error, err_stop n t)

  unfoldable pub init_shards : Bool → ℕ → World E → Loaded × World E
  unfolding shards_init init_threads err_free
  init_shards split n w =
      let (ok, t) = shards_init n 0 w in
      let (registered, env) = h.misc_register t.env in
      if not ok
      then (enomem, err_free n t)
      else if not registered
      then (device_error, err_free n (record t { env = env }))
      else init_threads split n (record t { env = env })

  -- The three regions, each with the release of those before it.
  unfoldable pub init_desc : Bool → ℕ → World E → Bool × E → Loaded × World E
  unfolding init_shards
  init_desc split n w (false, env) = (
    enomem,
    record w { region = false; staging = false; env = h.backend_exit (h.free (h.free env)) },
  )
  init_desc split n w (true, env) = init_shards split n (record w { desc = true; env = env })

  unfoldable pub init_staging : Bool → ℕ → World E → Bool × E → Loaded × World E
  unfolding init_desc
  init_staging split n w (false, env) =
      (enomem, record w { region = false; env = h.backend_exit (h.free env) })
  init_staging split n w (true, env) =
      init_desc split n (record w { staging = true; env = env }) (h.alloc env)

  unfoldable pub init_region : Bool → ℕ → World E → Bool × E → Loaded × World E
  unfolding init_staging
  init_region split n w (false, env) = (enomem, record w { env = h.backend_exit env })
  init_region split n w (true, env) =
      init_staging split n (record w { region = true; env = env }) (h.alloc env)

  -- After the call of the provider's `init`.
  unfoldable pub backend_up : Bool → ℕ → World E → Bool × E → Loaded × World E
  unfolding init_region
  backend_up split n w (false, env) = (backend_error, record w { env = env })
  backend_up split n w (true, env) = init_region split n w (h.alloc env)

  -- `kfree(dup)` follows the call of `init`, whatever it returned.
  unfoldable pub dup_freed : Bool × E → Bool × E
  dup_freed (ok, env) = (ok, h.free env)

  unfoldable pub with_dup : Bool → Geometry → List Text → World E → Bool × E → Loaded × World E
  unfolding backend_up dup_freed provider_of
  with_dup split g paths w (false, env) = (enomem, record w { env = env })
  with_dup split g paths w (true, env) =
      backend_up split g.n_shards w
        (dup_freed (h.backend_init (provider_of paths) paths g.pend_cap g.page env))

  -- `nvmev_coalesce_init`, with `coalesce_backend` (empty if it is not set) and `coalesce_split`.
  unfoldable pub coalesce_init : Text → Bool → Geometry → World E → Loaded × World E
  unfolding with_dup paths_of
  coalesce_init [] split g w =
      backend_up split g.n_shards w (h.backend_init model [] g.pend_cap g.page w.env)
  coalesce_init (ch ∷ text) split g w = with_dup split g (paths_of (ch ∷ text)) w (h.alloc w.env)

  -- `nvmev_coalesce_exit`
  unfoldable pub coalesce_exit : ℕ → World E → World E
  unfolding stop_threads shards_free free_regions
  coalesce_exit n w =
      let t = stop_threads n w in
      let quiet = h.backend_exit (h.misc_deregister t.env) in
      let u = free_regions (shards_free n (record t { env = quiet })) in
      if w.running then record u { running = false } else w

-- The globals before the module is loaded.
abbrev pub unloaded : {E : Type 0} → E → World E
unloaded env = record {
  shard = λ _. no_memory;
  task = λ _. false;
  reaper = λ _. false;
  region = false;
  staging = false;
  desc = false;
  running = false;
  env = env;
}
