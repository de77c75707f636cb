-- ===== src/Middle/Deliver.antt =====
-- Delivery of finished rows: `deliver_row`, and the walks over a page's waiters.
use gpu_fpga_dma.Base.{ℕ, zero, suc, ◌+◌, true, false, none, some, ◌==◌, if◌then◌else◌, Array}
use gpu_fpga_dma.Base.Words.{u16}
use gpu_fpga_dma.Shard.{Waiter, co_nil}
use gpu_fpga_dma.Middle.{Ops, Params}

module _ {E : Type 0} (ops : Ops E) (p : Params) where
  -- The completion of a waiter, posted through the front end's `row` and `cqe`.
  abbrev pub row_then_cqe : E → Waiter → ℕ → ℕ → E
  row_then_cqe env w page_src status =
      let (st, env') =
        if status == 0
        then ops.row env w.dst_phys (page_src + w.off_in_page) p.row
        else (status, env) in
      ops.cqe env' (record { req_id = w.req_id; status = u16 st })

  -- `deliver_row`
  unfoldable pub deliver_row : E → Waiter → ℕ → ℕ → E
  deliver_row env w page_src status = elim ops.deliver [
    | some deliver ↦ deliver env w page_src status
    | none ↦ row_then_cqe env w page_src status
  ]

  -- `while (wi != CO_NIL) { deliver_row(s, &s->warena[wi], ...); wi = s->warena[wi].next; }`. The
  -- fuel is the size of the arena.
  unfoldable pub deliver_chain : ℕ → Array Waiter → E → ℕ → ℕ → ℕ → E
  deliver_chain zero warena env head page_src status = env
  deliver_chain (suc f) warena env head page_src status = elim (head == co_nil) [
    | true ↦ env
    | false ↦
        deliver_chain f warena (deliver_row env (warena head) page_src status) (warena head).next
          page_src status
  ]
