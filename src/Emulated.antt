-- ===== src/Emulated.antt =====
-- The emulated backends: control/nvmevirt/backend_model.c. A shard's ring of timers holds the reads that
-- are to complete `coalesce_read_ns` after they were issued.
pub mod Timers
mod Tests
use gpu_fpga_dma.Base.{
  ℕ, zero, suc, ◌+◌, ◌-◌, ◌*◌, ◌/◌, ◌%◌, ◌^◌, bit_and, Bool, true, false, ◌&&◌, Option, none, some,
  List, [], ◌∷◌, ltb, leb, ◌==◌, if◌then◌else◌, Array, update,
}
use gpu_fpga_dma.Base.Words.{add32, sub32, add64, u32}
use gpu_fpga_dma.Middle.{Bread, Issued, accepted, again, refused}

-- `struct bm_ent`
pub record BmEnt : Type 0 where
  pub due_ns : ℕ
  pub cookie : ℕ

-- `struct bm_ring`
pub record BmRing : Type 0 where
  pub e : Array BmEnt
  pub cap : ℕ
  pub head : ℕ
  pub tail : ℕ

-- The clock, the random numbers and the DRAM namespaces, over the state `E` of the machine.
pub record Machine (E : Type 0) : Type 0 where
  pub local_clock : E → ℕ × E
  -- `prandom_u32_max(1000000)`
  pub prandom : E → ℕ × E
  -- whether a namespace is there and mapped, and the copy of a page out of it
  pub is_mapped : E → ℕ → Bool
  pub memcpy : E → Bread → E

-- `coalesce_read_ns`, `emul_drop_ppm` and `emul_err_ppm`.
pub record Tuning : Type 0 where
  pub read_ns : ℕ
  pub drop_ppm : ℕ
  pub err_ppm : ℕ

abbrev pub max_shards : ℕ
max_shards = 32

abbrev pub failed : ℕ
failed = 2 ^ 32 - 5

-- `bm_ring`, one for each shard, with the machine.
pub record Model (E : Type 0) : Type 0 where
  pub rings : Array BmRing
  pub env : E

-- A write at the tail.
unfoldable pub arm : BmRing → ℕ → ℕ → BmRing
arm r due cookie = record r {
  e = update r.e (bit_and r.tail (r.cap - 1)) (record { due_ns = due; cookie = cookie });
  tail = add32 r.tail 1;
}

-- What a fault injection makes of a completion, `none` if it is dropped.
unfoldable pub verdict : Tuning → ℕ → Option ℕ
verdict t roll =
    if ltb roll t.drop_ppm
    then none
    else if ltb roll (add32 t.drop_ppm t.err_ppm)
    then some failed
    else some 0

-- The calls of `nvmev_co_backend_done` for one completion: none or one.
unfoldable pub report : ℕ → Option ℕ → List (ℕ × ℕ) → List (ℕ × ℕ)
report cookie none later = later
report cookie (some status) later = (cookie, status) ∷ later

-- The entry at the head.
unfoldable pub front : BmRing → BmEnt
front r = r.e (bit_and r.head (r.cap - 1))

module _ {E : Type 0} (m : Machine E) (t : Tuning) where
  -- `emul_fill`
  unfoldable pub emul_fill : Bread → E → Bool × E
  emul_fill rd env = if m.is_mapped env rd.dev then (true, m.memcpy env rd) else (false, env)

  unfoldable pub arm_at : ℕ → ℕ → Model E → ℕ × E → Issued × Model E
  unfolding arm
  arm_at shard cookie s (now, env) = (
    accepted,
    record s {
      rings = update s.rings shard (arm (s.rings shard) (add64 now t.read_ns) cookie);
      env = env;
    },
  )

  -- After the copy into staging.
  unfoldable pub filled : ℕ → ℕ → Model E → Bool × E → Issued × Model E
  unfolding arm_at
  filled shard cookie s (false, env) = (refused, record s { env = env })
  filled shard cookie s (true, env) =
      arm_at shard cookie (record s { env = env }) (m.local_clock env)

  -- `backend_model_issue_read`
  unfoldable pub model_issue_read : Bread → Model E → Issued × Model E
  unfolding filled emul_fill
  model_issue_read rd s =
      let shard = u32 (rd.cookie / 2 ^ 32) in
      let r = s.rings shard in
      if leb max_shards shard
      then (refused, s)
      else if leb r.cap (sub32 r.tail r.head)
      then (again, s)
      else filled shard rd.cookie s (emul_fill rd s.env)

  -- `backend_sync_issue_read`
  unfoldable pub sync_issue_read : Bread → E → Issued × E
  unfolding emul_fill
  sync_issue_read rd env =
      let (ok, env') = emul_fill rd env in (if ok then accepted else refused, env')

  -- A roll is made only if a fault injection is on.
  unfoldable pub judge : E → Option ℕ × E
  unfolding verdict
  judge env =
      if (t.drop_ppm == 0) && (t.err_ppm == 0)
      then (some 0, env)
      else (let (roll, env') = m.prandom env in (verdict t roll, env'))

  -- The loop of `backend_model_poll` at one reading of the clock.
  unfoldable pub drain_from : ℕ → ℕ → BmRing → E → List (ℕ × ℕ) × BmRing × E
  unfolding judge report
  drain_from zero now r env = ([], r, env)
  drain_from (suc f) now r env = elim (r.head == r.tail) [
    | true ↦ ([], r, env)
    | false ↦ elim (ltb now (front r).due_ns) [
      | true ↦ ([], r, env)
      | false ↦
          let (status, env') = judge env in
          let (cs, r', env'') = drain_from f now (record r { head = add32 r.head 1 }) env' in
          (report (front r).cookie status cs, r', env'')
    ]
  ]

  -- `backend_model_poll`; a turn for each entry and one for the last test.
  unfoldable pub model_poll : ℕ → Model E → List (ℕ × ℕ) × Model E
  unfolding drain_from
  model_poll shard s =
      if leb max_shards shard
      then ([], s)
      else (let r = s.rings shard in
          let (now, env) = m.local_clock s.env in
          let (cs, r', env') = drain_from (suc (sub32 r.tail r.head)) now r env in
          (cs, record s { rings = update s.rings shard r'; env = env' }))
