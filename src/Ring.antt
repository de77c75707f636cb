-- ===== src/Ring.antt =====
-- The L1 rings of one shard: the request ring (many producers, one consumer) and the completion
-- ring (one producer, one consumer). The module's side is control/nvmevirt/coalesce.c (`pop_req`,
-- `rq_empty`, `push_cqe`), the application's side src/nvmev_l1.h (`l1_push_req`, `l1_pop_cqe`).
pub mod Queue
pub mod Completion
pub mod Producers
pub mod Fifo
mod Tests
use gpu_fpga_dma.Base.{
  ℕ, suc, ◌+◌, ◌-◌, ◌≡◌, bit_and, Bool, true, false, Option, none, some, List, [], ◌∷◌, ltb, ◌==◌,
  if◌then◌else◌, Array, update,
}
use gpu_fpga_dma.Base.Words.{add32, sub32}

-- `struct l1_req`, without its padding.
pub record Req : Type 0 where
  pub req_id : ℕ
  pub node_id : ℕ
  pub dst_phys : ℕ
  pub flags : ℕ

-- `struct l1_cqe`, without its padding.
pub record Cqe : Type 0 where
  pub req_id : ℕ
  pub status : ℕ

-- The cursors of `struct l1_ring`, the arrays that its offsets name, and the masks that
-- `struct co_shard` keeps beside it.
pub record Ring : Type 0 where
  pub rq_entries : ℕ
  pub cq_entries : ℕ
  pub rq_mask : ℕ
  pub cq_mask : ℕ
  pub rq_head : ℕ
  pub rq_tail : ℕ
  pub cq_head : ℕ
  pub cq_tail : ℕ
  pub rq_seq : Array ℕ
  pub rq : Array Req
  pub cq : Array Cqe

-- The cell that the consumer's cursor names.
abbrev pub rq_cell : Ring → ℕ
rq_cell r = bit_and r.rq_tail r.rq_mask

-- `rq_empty`
unfoldable pub rq_empty : Ring → Bool
rq_empty r = if r.rq_seq (rq_cell r) == add32 r.rq_tail 1 then false else true

-- `pop_req` in the order of its accesses: the acquire load of the cell's sequence and the copy,
unfoldable pub pop_read : Ring → Option Req
pop_read r = if r.rq_seq (rq_cell r) == add32 r.rq_tail 1 then some (r.rq (rq_cell r)) else none

-- then the release store that frees the cell for the next lap, and the cursor.
unfoldable pub pop_release : Ring → Ring
pop_release r = record r {
  rq_tail = add32 r.rq_tail 1;
  rq_seq = update r.rq_seq (rq_cell r) (add32 r.rq_tail r.rq_entries);
}

-- `pop_req`: the request, or `none` for its `false`.
unfoldable pub pop_req : Ring → Option Req × Ring
unfolding pop_read pop_release
pop_req r = elim (pop_read r) [ none ↦ (none, r) | some q ↦ (some q, pop_release r) ]

-- `l1_push_req` in its four accesses. The fetch-add returns the old head.
unfoldable pub push_reserve : Ring → ℕ × Ring
push_reserve r = (r.rq_head, record r { rq_head = add32 r.rq_head 1 })

abbrev pub push_cell : Ring → ℕ → ℕ
push_cell r pos = bit_and pos (r.rq_entries - 1)

-- The test that ends the producer's spin.
unfoldable pub push_ready : Ring → ℕ → Bool
push_ready r pos = r.rq_seq (push_cell r pos) == pos

unfoldable pub push_write : Ring → ℕ → Req → Ring
push_write r pos q = record r { rq = update r.rq (push_cell r pos) q }

unfoldable pub push_publish : Ring → ℕ → Ring
push_publish r pos = record r { rq_seq = update r.rq_seq (push_cell r pos) (add32 pos 1) }

-- `push_cqe` where the completion ring has room; `none` for a round of its wait.
unfoldable pub try_push_cqe : Ring → Cqe → Option Ring
try_push_cqe r c =
    if ltb (sub32 r.cq_head r.cq_tail) r.cq_entries
    then some
        (record r { cq = update r.cq (bit_and r.cq_head r.cq_mask) c; cq_head = add32 r.cq_head 1 })
    else none

-- What the producer of completions sees in one round of its wait: how many completions the GPU
-- has taken since the last round, and whether the thread has to stop.
pub record Round : Type 0 where
  pub taken : ℕ
  pub stop : Bool

-- The GPU moves its cursor over `n` completions.
abbrev pub gpu_takes : ℕ → Ring → Ring
gpu_takes n r = record r { cq_tail = add32 r.cq_tail n }

pub data Push : Type 0 where
  pushed : Ring → Push
  stopped : Ring → Push
  waiting : Ring → Push

-- One round: post the completion if there is room, else stop or go on waiting.
abbrev pub settle : Option Ring → Bool → Ring → Push → Push
settle (some r') stop r rest = pushed r'
settle none true r rest = stopped r
settle none false r rest = rest

-- `push_cqe`, over the rounds that it waits. It drops the completion only when the thread stops.
unfoldable pub push_cqe : List Round → Ring → Cqe → Push
push_cqe [] r c = waiting r
push_cqe (w ∷ ws) r c =
    let r' = gpu_takes w.taken r in settle (try_push_cqe r' c) w.stop r' (push_cqe ws r' c)

-- `l1_pop_cqe`: the completion, or `none` for its -1.
unfoldable pub pop_cqe : Ring → Option Cqe × Ring
pop_cqe r = if r.cq_head == r.cq_tail then (none, r) else (
  some (r.cq (bit_and r.cq_tail (r.cq_entries - 1))),
  record r { cq_tail = add32 r.cq_tail 1 },
)
