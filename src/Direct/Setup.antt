-- ===== src/Direct/Setup.antt =====
-- The admin commands of a controller, and the life of a queue pair: `admin_sync`, `db_ptr`, `qp_create`
-- and `qp_destroy` of control/nvmevirt/backend_direct.c.
pub mod Clean
use gpu_fpga_dma.Base.{
  ℕ, zero, suc, ◌+◌, ◌-◌, ◌*◌, ◌/◌, ◌%◌, ◌^◌, Bool, true, false, ◌&&◌, Option, none, some, List, [],
  ◌∷◌, ltb, ◌==◌, if◌then◌else◌, Array, update, not,
}
use gpu_fpga_dma.Base.Words.{mul32, u16}
use gpu_fpga_dma.Direct.{
  Command, blank, read, create_cq, create_sq, delete_cq, delete_sq, set_features, Completion, Dqp,
  Host, flip,
}

-- `struct dctrl`, with addresses as numbers. `asq` is the admin submission queue.
pub record Dctrl : Type 0 where
  pub bar : ℕ
  pub dstrd : ℕ
  pub io_qd : ℕ
  pub asq : Array Command
  pub asq_tail : ℕ
  pub acq_head : ℕ
  pub acq_phase : ℕ
  pub asq_db : ℕ
  pub acq_db : ℕ
  pub qp : Array Dqp

-- A controller with the world outside.
pub record Ctl (E : Type 0) : Type 0 where
  pub c : Dctrl
  pub env : E

abbrev pub direct_admin_qd : ℕ
direct_admin_qd = 32

abbrev pub admin_loops : ℕ
admin_loops = 500000

unfoldable pub db_ptr : Dctrl → ℕ → Bool → ℕ
db_ptr c qid cq = c.bar + 0x1000 + mul32 (2 * qid + (if cq then 1 else 0)) (4 * 2 ^ c.dstrd)

-- `cmd->common.command_id = cid`
unfoldable pub with_id : ℕ → Command → Command
with_id i blank = blank
with_id i (read _ nsid prp1 slba length) = read i nsid prp1 slba length
with_id i (create_cq _ prp1 cqid qsize flags) = create_cq i prp1 cqid qsize flags
with_id i (create_sq _ prp1 sqid qsize flags cqid) = create_sq i prp1 sqid qsize flags cqid
with_id i (delete_cq _ qid) = delete_cq i qid
with_id i (delete_sq _ qid) = delete_sq i qid
with_id i (set_features _ fid dword11) = set_features i fid dword11

-- What `admin_sync` returns: a status code, or `-ETIMEDOUT`.
pub data Sync : Type 0 where
  status : ℕ → Sync
  timed_out : Sync

-- `rc == 0`
unfoldable pub succeeded : Sync → Bool
succeeded (status n) = n == 0
succeeded timed_out = false

-- What `qp_create` returns.
pub data Created : Type 0 where
  made no_memory io_error : Created

-- The stack of command ids, top first, once `free[i] = i` has run for each `i` below `n`.
unfoldable pub count_down : ℕ → List ℕ
count_down zero = []
count_down (suc n) = n ∷ count_down n

abbrev pub zero_cqe : Completion
zero_cqe = record { result0 = 0; command_id = 0; status = 0 }

-- A queue pair after `memset`.
abbrev pub zero_qp : Dqp
zero_qp = record {
  sq = λ _. blank;
  cq = λ _. zero_cqe;
  sq_dma = 0;
  cq_dma = 0;
  sq_db = 0;
  cq_db = 0;
  qid = 0;
  sq_tail = 0;
  cq_head = 0;
  cq_phase = 0;
  created = false;
  free = [];
  cid_cookie = λ _. 0;
  cid_dma = λ _. 0;
}

-- The queue pair of shard `sh` before its queues are created on the device.
unfoldable pub fresh_qp : Dctrl → ℕ → ℕ → ℕ → Dqp
unfolding db_ptr count_down
fresh_qp c sh sq_dma cq_dma =
    let qid = u16 (sh + 1) in
    record zero_qp {
      sq_dma = sq_dma;
      cq_dma = cq_dma;
      sq_db = db_ptr c qid false;
      cq_db = db_ptr c qid true;
      qid = qid;
      cq_phase = 1;
      free = count_down (c.io_qd - 1);
    }

module _ {E : Type 0} (h : Host E) where
  unfoldable pub admin_wait : ℕ → ℕ → ℕ → E → Option Completion × E
  admin_wait zero head phase env = (none, env)
  admin_wait (suc f) head phase env =
      let (c, env') = h.peek env head in
      elim ((c.status % 2) == phase) [
        | true ↦ (some c, env')
        | false ↦ admin_wait f head phase env'
      ]

  unfoldable pub admin_settle : Dctrl → Option Completion × E → Sync × Ctl E
  admin_settle c (none, env) = (timed_out, record { c = c; env = env })
  admin_settle c (some cqe, env) =
      let head = (c.acq_head + 1) % direct_admin_qd in
      (
        status (cqe.status / 2 % 2 ^ 11),
        record {
          c = record c {
            acq_head = head;
            acq_phase = (if head == 0 then flip c.acq_phase else c.acq_phase);
          };
          env = h.writel env c.acq_db head;
        },
      )

  unfoldable pub admin_sync : Command → Ctl E → Sync × Ctl E
  admin_sync cmd t =
      let c = t.c in
      let tail = (c.asq_tail + 1) % direct_admin_qd in
      admin_settle
        (record c { asq = update c.asq c.asq_tail (with_id c.asq_tail cmd); asq_tail = tail })
        (admin_wait admin_loops c.acq_head c.acq_phase (h.writel t.env c.asq_db tail))

  unfoldable pub set_qp : ℕ → Dqp → Ctl E → Ctl E
  set_qp sh q t = record t { c = record t.c { qp = update t.c.qp sh q } }

  -- `if (q->sq) dma_free_coherent(...)`
  unfoldable pub free_if : Option ℕ → E → E
  free_if none env = env
  free_if (some dma) env = h.free_coherent env dma

  unfoldable pub kfree_if : Bool → E → E
  kfree_if false env = env
  kfree_if true env = h.kfree env

  -- From the label `fail` on.
  unfoldable pub qp_free : ℕ → Option ℕ → Option ℕ → Bool → Bool → Bool → Ctl E → Ctl E
  qp_free sh sq cq free cookie dma t = set_qp sh zero_qp (record t {
    env = kfree_if dma (kfree_if cookie (kfree_if free (free_if cq (free_if sq t.env))));
  })

  -- CREATE_SQ, and the label `fail_delcq`.
  unfoldable pub create_sq_of : ℕ → ℕ → ℕ → Ctl E → Created × Ctl E
  create_sq_of sh sq_dma cq_dma t =
      let qid = u16 (sh + 1) in
      let (rc, t1) = admin_sync (create_sq 0 sq_dma qid (u16 (t.c.io_qd - 1)) 1 qid) t in
      if succeeded rc then (made, set_qp sh (record (t1.c.qp sh) { created = true }) t1) else (
        io_error,
        qp_free sh (some sq_dma) (some cq_dma) true true true (admin_sync (delete_cq 0 qid) t1).1,
      )

  unfoldable pub create_queues : ℕ → ℕ → ℕ → Ctl E → Created × Ctl E
  create_queues sh sq_dma cq_dma t =
      let qid = u16 (sh + 1) in
      let (rc, t1) = admin_sync (create_cq 0 cq_dma qid (u16 (t.c.io_qd - 1)) 1) t in
      if succeeded rc
      then create_sq_of sh sq_dma cq_dma t1
      else (io_error, qp_free sh (some sq_dma) (some cq_dma) true true true t1)

  -- The test of the five allocations.
  unfoldable pub allocated : ℕ → Option ℕ → Option ℕ → Bool → Bool → Bool → Ctl E → Created × Ctl E
  allocated sh none cq free cookie dma t = (no_memory, qp_free sh none cq free cookie dma t)
  allocated sh (some sq_dma) none free cookie dma t =
      (no_memory, qp_free sh (some sq_dma) none free cookie dma t)
  allocated sh (some sq_dma) (some cq_dma) free cookie dma t =
      if free && (cookie && dma)
      then create_queues sh sq_dma cq_dma (set_qp sh (fresh_qp t.c sh sq_dma cq_dma) t)
      else (no_memory, qp_free sh (some sq_dma) (some cq_dma) free cookie dma t)

  unfoldable pub qp_create : ℕ → Ctl E → Created × Ctl E
  qp_create sh t =
      let (sq, e1) = h.alloc_coherent t.env in
      let (cq, e2) = h.alloc_coherent e1 in
      let (free, e3) = h.kmalloc e2 in
      let (cookie, e4) = h.kmalloc e3 in
      let (dma, e5) = h.kmalloc e4 in allocated sh sq cq free cookie dma (record t { env = e5 })

  unfoldable pub qp_destroy : ℕ → Ctl E → Ctl E
  qp_destroy sh t =
      let q = t.c.qp sh in
      if not q.created
      then t
      else (let t1 = (admin_sync (delete_sq 0 q.qid) t).1 in
          let t2 = (admin_sync (delete_cq 0 q.qid) t1).1 in
          qp_free sh (some q.sq_dma) (some q.cq_dma) true true true t2)
