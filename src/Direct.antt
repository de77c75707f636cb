-- ===== src/Direct.antt =====
-- The middle layer's own NVMe queue pairs: the submission of reads and the polling of completions of
-- control/nvmevirt/backend_direct.c. The stack of free command ids is the list of its entries, top first.
pub mod Setup
pub mod Books
pub mod Poll
pub mod Driver
pub mod Doorbells
mod Tests
use gpu_fpga_dma.Base.{
  ℕ, zero, suc, ◌+◌, ◌-◌, ◌*◌, ◌/◌, ◌%◌, ◌^◌, Bool, true, false, Option, none, some, List, [], ◌∷◌,
  ltb, ◌==◌, if◌then◌else◌, Array, update,
}
use gpu_fpga_dma.Base.Words.{add32, sub32, u16}
use gpu_fpga_dma.Cookie.{ck_shard}
use gpu_fpga_dma.Middle.{Bread, Issued, accepted, again, refused}

-- `struct nvme_completion`, the fields that are read.
pub record Completion : Type 0 where
  pub result0 : ℕ
  pub command_id : ℕ
  pub status : ℕ

-- `struct nvme_command`, by its opcode, with the fields that are written; each starts with its command id.
pub data Command : Type 0 where
  blank : Command
  read : (command_id nsid prp1 slba length : ℕ) → Command
  create_cq : (command_id prp1 cqid qsize cq_flags : ℕ) → Command
  create_sq : (command_id prp1 sqid qsize sq_flags cqid : ℕ) → Command
  delete_cq : (command_id qid : ℕ) → Command
  delete_sq : (command_id qid : ℕ) → Command
  set_features : (command_id fid dword11 : ℕ) → Command

-- `struct dqp`; the doorbells are bus addresses.
pub record Dqp : Type 0 where
  pub sq : Array Command
  pub cq : Array Completion
  pub sq_dma : ℕ
  pub cq_dma : ℕ
  pub sq_db : ℕ
  pub cq_db : ℕ
  pub qid : ℕ
  pub sq_tail : ℕ
  pub cq_head : ℕ
  pub cq_phase : ℕ
  pub created : Bool
  pub free : List ℕ
  pub cid_cookie : Array ℕ
  pub cid_dma : Array ℕ

-- The kernel's DMA interface and the device's registers, over the state `E` outside the driver.
pub record Host (E : Type 0) : Type 0 where
  -- `none` is `dma_mapping_error`
  pub dma_map_page : E → ℕ → ℕ → Option ℕ × E
  pub dma_unmap_page : E → ℕ → ℕ → E
  pub writel : E → ℕ → ℕ → E
  -- what a poll of an admin completion reads, and the 10 us before the next one
  pub peek : E → ℕ → Completion × E
  -- `dma_alloc_coherent`, with the bus address of zeroed memory, and `dma_free_coherent`
  pub alloc_coherent : E → Option ℕ × E
  pub free_coherent : E → ℕ → E
  -- `kmalloc_array`, and `kfree` of an array that is there
  pub kmalloc : E → Bool × E
  pub kfree : E → E

-- A queue pair at work, with `nv_inflight`.
pub record Lane (E : Type 0) : Type 0 where
  pub q : Dqp
  pub inflight : ℕ
  pub env : E

-- `-EIO` as a word.
abbrev pub eio : ℕ
eio = 2 ^ 32 - 5

-- `x ^= 1`
abbrev pub flip : ℕ → ℕ
flip x = if x % 2 == 0 then x + 1 else x - 1

-- Whether the entry at the head is new.
unfoldable pub cqe_ready : Dqp → Bool
cqe_ready q = ((q.cq q.cq_head).status % 2) == q.cq_phase

-- `cq_head` is a `u16`, which is compared with a `u32` depth.
unfoldable pub advance : ℕ → Dqp → Dqp
advance io_qd q =
    let head = u16 (q.cq_head + 1) in
    if head == io_qd
    then record q { cq_head = 0; cq_phase = flip q.cq_phase }
    else record q { cq_head = head }

module _ {E : Type 0} (h : Host E) (io_qd : ℕ) where
  -- The command is written and counted before its doorbell.
  unfoldable pub post_read : Bread → ℕ → ℕ → Lane E → Lane E
  post_read rd cid dma l =
      let tail = u16 ((l.q.sq_tail + 1) % io_qd) in
      record l {
        q = record l.q {
          cid_dma = update l.q.cid_dma cid dma;
          sq =
              update l.q.sq l.q.sq_tail
                (read cid 1 dma (rd.line_tag / 512) (u16 (sub32 (rd.len / 512) 1)));
          sq_tail = tail;
        };
        inflight = add32 l.inflight 1;
        env = h.writel l.env l.q.sq_db tail;
      }

  -- The outcome of the mapping, once the command id is taken.
  unfoldable pub map_read : Bread → ℕ → Lane E → Option ℕ × E → Issued × Lane E
  map_read rd cid l (none, env) =
      (refused, record l { q = record l.q { free = cid ∷ l.q.free }; env = env })
  map_read rd cid l (some dma, env) = (accepted, post_read rd cid dma (record l { env = env }))

  unfoldable pub take_cid : Bread → Lane E → List ℕ → Issued × Lane E
  take_cid rd l [] = (again, l)
  take_cid rd l (cid ∷ rest) =
      map_read rd cid
        (record l {
          q = record l.q { free = rest; cid_cookie = update l.q.cid_cookie cid rd.cookie };
        })
        (h.dma_map_page l.env rd.spage rd.len)

  -- `backend_direct_issue_read` on a queue pair that exists.
  unfoldable pub issue_qp : Bread → Lane E → Issued × Lane E
  issue_qp rd l = take_cid rd l l.q.free

  -- One completion: its cookie and status, and the state after it.
  unfoldable pub take_cqe : ℕ → Lane E → (ℕ × ℕ) × Lane E
  take_cqe page l =
      let c = l.q.cq l.q.cq_head in
      let q = advance io_qd l.q in
      (
        (l.q.cid_cookie c.command_id, if c.status / 2 == 0 then 0 else eio),
        record l {
          q = record q { free = c.command_id ∷ q.free };
          inflight = sub32 l.inflight 1;
          env = h.dma_unmap_page l.env (l.q.cid_dma c.command_id) page;
        },
      )

  -- The loop over new completions; what it reports to `nvmev_co_backend_done`, in order.
  unfoldable pub poll_from : ℕ → ℕ → Lane E → List (ℕ × ℕ) × Lane E
  poll_from zero page l = ([], l)
  poll_from (suc f) page l = elim (cqe_ready l.q) [
    | false ↦ ([], l)
    | true ↦ let (c, l') = take_cqe page l in let (cs, t) = poll_from f page l' in (c ∷ cs, t)
  ]

  -- `if (advanced) writel(q->cq_head, q->cq_db)`
  unfoldable pub ring_head : List (ℕ × ℕ) → Lane E → Lane E
  ring_head [] l = l
  ring_head (c ∷ cs) l = record l { env = h.writel l.env l.q.cq_db l.q.cq_head }

  unfoldable pub poll_qp : ℕ → ℕ → Lane E → List (ℕ × ℕ) × Lane E
  poll_qp f page l =
      let (cs, t) = poll_from f page l in if l.q.created then (cs, ring_head cs t) else ([], l)
