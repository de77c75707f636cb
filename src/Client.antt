-- ===== src/Client.antt =====
-- The client library: src/isefs.c, with `l1_shard_of` of src/nvmev_l1.h. It numbers requests by their
-- place in the caller's array, and finds each row's bus address in its table of GPU pages.
pub mod Address
pub mod Wait
mod Tests
use gpu_fpga_dma.Base.{
  ℕ, zero, suc, ◌+◌, ◌-◌, ◌*◌, ◌/◌, ◌%◌, ◌^◌, bit_and, Bool, true, false, ◌||◌, Option, none, some,
  List, [], ◌∷◌, ◌++◌, ltb, leb, ◌==◌, if◌then◌else◌, Array, length, get_or, take, drop, min,
}
use gpu_fpga_dma.Base.Words.{add64, sub64, mul64, and_not, u32}
use gpu_fpga_dma.Ring.{Req}

abbrev pub max_dst : ℕ
max_dst = 8

-- `struct isefs_dst`; `pg_phys` has `npages` entries.
pub record Dst : Type 0 where
  pub va : ℕ
  pub pg_phys : List ℕ
  pub page_shift : ℕ
  pub cap_rows : ℕ

-- `struct isefs`; the rings are those of `Rings`.
pub record Handle : Type 0 where
  pub nr_shards : ℕ
  pub row : ℕ
  pub page : ℕ
  pub dst : Array Dst

-- The rings of the shards over the shared memory `E`: `l1_push_req`, which waits while a ring is full,
-- and `l1_pop_cqe` with the id of the request it completes.
pub record Rings (E : Type 0) : Type 0 where
  pub push : E → ℕ → Req → E
  pub pop : E → ℕ → Option ℕ × E

-- `l1_shard_of`
unfoldable pub shard_of : ℕ → ℕ → ℕ → ℕ → ℕ
shard_of node_id row page nr_shards =
    let line_tag = and_not (mul64 node_id row) (page - 1) in
    mul64 line_tag 0x9e3779b97f4a7c15 / 2 ^ 40 % nr_shards

-- The bus address at an offset from the first page of a table of pages.
unfoldable pub page_phys : List ℕ → ℕ → ℕ → ℕ
page_phys pg_phys shift off =
    let pg = u32 (off / 2 ^ shift) in
    if leb (length pg_phys) pg then 0 else add64 (get_or pg_phys pg 0) (bit_and off (2 ^ shift - 1))

-- `dst_phys_of`
unfoldable pub dst_phys_of : Dst → ℕ → ℕ → ℕ
unfolding page_phys
dst_phys_of d row i =
    page_phys d.pg_phys d.page_shift (add64 (bit_and d.va (2 ^ d.page_shift - 1)) (mul64 i row))

-- The request for the `i`-th node of a fetch, and its shard.
unfoldable pub request : Handle → Dst → ℕ → ℕ → ℕ → ℕ → ℕ × Req
request h d req_base dst_off i node_id = (
  shard_of node_id h.row h.page h.nr_shards,
  record {
    req_id = add64 req_base i;
    node_id = node_id;
    dst_phys = dst_phys_of d h.row (add64 dst_off i);
    flags = 0;
  },
)

module _ {E : Type 0} (g : Rings E) (h : Handle) where
  -- The loop of `isefs_fetch` from the `i`-th node on.
  unfoldable pub fetch_from : Dst → ℕ → ℕ → ℕ → List ℕ → E → E
  fetch_from d req_base dst_off i [] env = env
  fetch_from d req_base dst_off i (id ∷ ids) env =
      let r = request h d req_base dst_off i id in
      fetch_from d req_base dst_off (i + 1) ids (g.push env r.0 r.1)

  -- `isefs_fetch`; the flag is false for -1.
  unfoldable pub fetch : ℕ → List ℕ → ℕ → ℕ → E → Bool × E
  unfolding fetch_from
  fetch slot ids req_base dst_off env =
      let d = h.dst slot in
      if leb max_dst slot
      then (false, env)
      else if (d.va == 0) || ltb d.cap_rows (add64 dst_off (length ids))
      then (false, env)
      else (true, fetch_from d req_base dst_off 0 ids env)

  -- At most `room` completions of one shard.
  unfoldable pub poll_shard : ℕ → ℕ → E → List ℕ × E
  poll_shard zero k env = ([], env)
  poll_shard (suc room) k env =
      let (o, env') = g.pop env k in
      elim o [
        | none ↦ ([], env')
        | some id ↦ let (ids, t) = poll_shard room k env' in (id ∷ ids, t)
      ]

  -- The shards from `k` on, `n` of them.
  unfoldable pub poll_shards : ℕ → ℕ → ℕ → E → List ℕ × E
  unfolding poll_shard
  poll_shards zero k room env = ([], env)
  poll_shards (suc n) k room env =
      if room == 0
      then ([], env)
      else (let (ids, env') = poll_shard room k env in
          let (more, t) = poll_shards n (k + 1) (room - length ids) env' in (ids ++ more, t))

  -- `isefs_poll`
  unfoldable pub poll : ℕ → E → List ℕ × E
  unfolding poll_shards
  poll max env = poll_shards h.nr_shards 0 max env

-- `LIMIT` and `CHUNK`.
abbrev pub limit : ℕ
limit = 16384

abbrev pub chunk : ℕ
chunk = 4096

-- `pushed` and `done` of `isefs_fetch_wait`, with the shared memory.
pub record Progress (E : Type 0) : Type 0 where
  pub pushed : ℕ
  pub done : ℕ
  pub env : E

-- How a loop ends: by its test, by -1, or for want of fuel.
pub data Ended (S : Type 0) : Type 0 where
  ended : S → Ended S
  failed : S → Ended S
  spent : S → Ended S

module _ {E : Type 0} (g : Rings E) (h : Handle) (ids : List ℕ) where
  -- The size of the next chunk.
  unfoldable pub chunk_size : Progress E → ℕ
  chunk_size s = min (min (length ids - s.pushed) chunk) (limit - sub64 s.pushed s.done)

  -- The inner loop: chunks are pushed while fewer than `limit` requests are outstanding.
  unfoldable pub push_chunks : ℕ → Progress E → Ended (Progress E)
  unfolding chunk_size
  push_chunks zero s = spent s
  push_chunks (suc f) s = elim (ltb s.pushed (length ids)) [
    | false ↦ ended s
    | true ↦ elim (ltb (sub64 s.pushed s.done) limit) [
      | false ↦ ended s
      | true ↦
          let c = chunk_size s in
          let (ok, env) = fetch g h 0 (take c (drop s.pushed ids)) s.pushed s.pushed s.env in
          let rest = push_chunks f (record s { pushed = s.pushed + c; env = env }) in
          (elim ok [ false ↦ failed (record s { env = env }) | true ↦ rest ])
    ]
  ]

  unfoldable pub count_done : Progress E → Progress E
  count_done s =
      let (got, env) = poll g h chunk s.env in record s { done = s.done + length got; env = env }

  -- `isefs_fetch_wait`, with a turn of the inner loop for each request that may be outstanding.
  unfoldable pub fetch_wait : ℕ → Progress E → Ended (Progress E)
  unfolding push_chunks count_done
  fetch_wait zero s = spent s
  fetch_wait (suc f) s = elim (ltb s.done (length ids)) [
    | false ↦ ended s
    | true ↦ elim (push_chunks (suc limit) s) [
      | ended t ↦ fetch_wait f (count_done t)
      | failed t ↦ failed t
      | spent t ↦ spent t
    ]
  ]
