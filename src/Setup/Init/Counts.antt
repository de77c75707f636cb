-- ===== src/Setup/Init/Counts.antt =====
-- Counts of what the loading of the middle layer holds: memory, threads, the device and the backend.
use gpu_fpga_dma.Base.{
  ℕ, zero, suc, ◌+◌, ◌-◌, ◌<◌, ◌≡◌, ap, Bool, true, false, List, [], ◌∷◌, arith, Array, update,
  if◌then◌else◌, if-both,
}
use gpu_fpga_dma.Shard.Chain.{total, total_cong, total-update}
use gpu_fpga_dma.Setup.Init.{
  Text, Provider, Kernel, Memory, World, all_there, alloc_all, kvfree, kvfree_all, pools_alloc,
  shard_alloc, shard_free, free_from, stop_all,
}

-- What is held where a flag is true.
unfoldable pub held : Bool → ℕ → ℕ
held false n = 0
held true n = n

-- A count in which a buffer, a running backend, the registered device and a thread weigh `mem`,
-- `backend`, `device` and `thread`; an operation that fails holds nothing.
pub record Balanced {E : Type 0} (h : Kernel E) (live : E → ℕ) (mem backend device thread : ℕ)
    : Type 0 where
  pub alloc : (env : E) → live (h.alloc env).1 ≡ live env + held (h.alloc env).0 mem
  pub free : (env : E) → live (h.free env) ≡ live env - mem
  pub up :
      (q : Provider) (paths : List Text) (depth page : ℕ) (env : E)
      → live (h.backend_init q paths depth page env).1
        ≡ live env + held (h.backend_init q paths depth page env).0 backend
  pub down : (env : E) → live (h.backend_exit env) ≡ live env - backend
  pub register :
      (env : E) → live (h.misc_register env).1 ≡ live env + held (h.misc_register env).0 device
  pub deregister : (env : E) → live (h.misc_deregister env) ≡ live env - device
  pub create :
      (env : E) → live (h.kthread_create env).1 ≡ live env + held (h.kthread_create env).0 thread
  pub stop : (env : E) → live (h.kthread_stop env) ≡ live env - thread

-- `n` entries from `k` on, added up.
abbrev pub upto : ℕ → ℕ → Array ℕ → ℕ
upto zero k f = 0
upto (suc n) k f = f k + upto n (k + 1) f

pub upto-total : (n k : ℕ) (f : Array ℕ) → upto n k f + total k f ≡ total (n + k) f
unfolding total
upto-total zero k f = omega (arith, ap (λ m. total m f) {x = 0 + k} {y = k} (omega arith))
upto-total (suc n) k f = omega (
  arith,
  upto-total n (k + 1) f,
  ap (λ m. total m f) {x = n + (k + 1)} {y = suc n + k} (omega arith),
  ap (λ m. total m f) {x = k + 1} {y = suc k} (omega arith),
)

pub upto-all : (n : ℕ) (f : Array ℕ) → upto n 0 f ≡ total n f
unfolding total
upto-all n f =
    omega (arith, upto-total n 0 f, ap (λ m. total m f) {x = n + 0} {y = n} (omega arith))

-- A sum over an array after one entry is replaced.
pub total-set :
    {A : Type 0} (n k : ℕ) (a : Array A) (v : A) (f : A → ℕ)
    → k < n
    → total n (λ i. f (update a k v i)) + f (a k) ≡ total n (λ i. f (a i)) + f v
total-set n k a v f lt =
    let same =
      total_cong n (λ i. f (update a k v i)) (update (λ i. f (a i)) k (f v))
        (λ i _. ground arith) in
    omega (arith, same, total-update n (λ i. f (a i)) k (f v) lt)

module _ (mem : ℕ) where
  abbrev pub size : List Bool → ℕ
  size [] = 0
  size (b ∷ bs) = held b mem + size bs

  abbrev pub room : Memory → ℕ
  room m = size m.windows + size m.pools + size m.buckets

module _ {E : Type 0} {h : Kernel E} {live : E → ℕ} {mem backend device thread : ℕ}
    (law : Balanced h live mem backend device thread) where
  pub alloc_all-live :
      (n : ℕ) (env : E) → live (alloc_all h n env).1 ≡ live env + size mem (alloc_all h n env).0
  unfolding alloc_all
  alloc_all-live zero env = omega arith
  alloc_all-live (suc n) env = omega (arith, law.alloc env, alloc_all-live n (h.alloc env).1)

  pub kvfree-live : (b : Bool) (env : E) → live (kvfree h b env) ≡ live env - held b mem
  unfolding kvfree held
  kvfree-live false env = omega arith
  kvfree-live true env = law.free env

  pub kvfree_all-live :
      (bs : List Bool) (env : E) → live (kvfree_all h bs env) ≡ live env - size mem bs
  unfolding kvfree_all
  kvfree_all-live [] env = omega arith
  kvfree_all-live (b ∷ bs) env =
      omega (arith, kvfree-live b env, kvfree_all-live bs (kvfree h b env))

  abbrev pub Holds : E → Bool × Memory × E → Type 0
  Holds env r = live r.2 ≡ live env + room mem r.1

  pub pools_alloc-live :
      (ws : List Bool) (from env : E)
      → live env ≡ live from + size mem ws
      → Holds from (pools_alloc h ws env)
  unfolding pools_alloc
  pools_alloc-live ws from env e =
      let five = alloc_all-live 5 env in
      let three = alloc_all-live 3 (alloc_all h 5 env).1 in
      if-both (Holds from) (all_there (alloc_all h 5 env).0) _ _
        (λ _. omega (arith, e, five, three)) (λ _. omega (arith, e, five))

  pub shard_alloc-live : (env : E) → Holds env (shard_alloc h env)
  unfolding shard_alloc
  shard_alloc-live env =
      let three = alloc_all-live 3 env in
      if-both (Holds env) (all_there (alloc_all h 3 env).0) _ _
        (λ _. pools_alloc-live (alloc_all h 3 env).0 env (alloc_all h 3 env).1 three)
        (λ _. omega (arith, three))

  pub shard_free-live : (m : Memory) (env : E) → live (shard_free h m env) ≡ live env - room mem m
  unfolding shard_free
  shard_free-live m env =
      let e1 = kvfree_all h m.windows env in
      let e2 = kvfree_all h m.pools e1 in
      omega (
        arith,
        kvfree_all-live m.windows env,
        kvfree_all-live m.pools e1,
        kvfree_all-live m.buckets e2,
      )

  pub free_from-live :
      (n k : ℕ) (ms : Array Memory) (env : E)
      → live (free_from h n k ms env) ≡ live env - upto n k (λ i. room mem (ms i))
  unfolding free_from
  free_from-live zero k ms env = omega arith
  free_from-live (suc n) k ms env =
      omega
        (arith, shard_free-live (ms k) env, free_from-live n (k + 1) ms (shard_free h (ms k) env))

  pub stop_one :
      (b : Bool) (env : E) → live (if b then h.kthread_stop env else env) ≡ live env - held b thread
  unfolding held
  stop_one false env = omega arith
  stop_one true env = law.stop env

  pub stop_all-live :
      (n k : ℕ) (there : Array Bool) (env : E)
      → live (stop_all h n k there env) ≡ live env - upto n k (λ i. held (there i) thread)
  unfolding stop_all
  stop_all-live zero k there env = omega arith
  stop_all-live (suc n) k there env = omega (
    arith,
    stop_one (there k) env,
    stop_all-live n (k + 1) there (if there k then h.kthread_stop env else env),
  )

  -- The counts of the shards' memory and of the threads, with `n` shards.
  abbrev pub rooms : ℕ → World E → ℕ
  rooms n w = total n (λ i. room mem (w.shard i))

  abbrev pub threads : ℕ → World E → ℕ
  threads n w = total n (λ i. held (w.task i) thread) + total n (λ i. held (w.reaper i) thread)

  abbrev pub regions : World E → ℕ
  regions w = held w.region mem + held w.staging mem + held w.desc mem
