-- ===== src/Direct/Tests.antt =====
-- Runs of the direct backend on small queue pairs: control/nvmevirt/backend_direct.c.
use gpu_fpga_dma.Base.{ℕ, ◌+◌, ◌-◌, ◌^◌, ◌≡◌, refl, true, some, [], ◌∷◌}
use gpu_fpga_dma.Middle.{Bread}
use gpu_fpga_dma.Direct.{
  Host, Dqp, issue_qp, poll_from, cqe_ready, advance, blank, eio, take_cid, map_read, post_read,
  take_cqe,
}
use gpu_fpga_dma.Direct.Setup.{Dctrl, Ctl, zero_qp, fresh_qp, count_down}
use gpu_fpga_dma.Direct.Books.{World, Books, after_issue, after_post}
use gpu_fpga_dma.Direct.Poll.{new_world, deepest_rereads}

-- A kernel whose state is the number of live allocations.
abbrev kernel : Host ℕ
kernel = record {
  dma_map_page = λ e page len. (some page, e);
  dma_unmap_page = λ e page len. e;
  writel = λ e a v. e;
  peek = λ e i. (record { result0 = 0; command_id = 0; status = 1 }, e);
  alloc_coherent = λ e. (some 4096, e + 1);
  free_coherent = λ e a. e - 1;
  kmalloc = λ e. (true, e + 1);
  kfree = λ e. e - 1;
}

abbrev ctrl : Dctrl
ctrl = record {
  bar = 65536;
  dstrd = 0;
  io_qd = 4;
  asq = λ _. blank;
  asq_tail = 31;
  acq_head = 31;
  acq_phase = 1;
  asq_db = 0;
  acq_db = 0;
  qp = λ _. zero_qp;
}

abbrev ctl : Ctl ℕ
ctl = record { c = ctrl; env = 0 }

abbrev bread : Bread
bread = record { line_tag = 8192; dev = 0; len = 4096; staging = 0; spage = 7; cookie = 99 }

abbrev start : World ℕ
start = new_world ctrl 0 4096 8192 0 0

abbrev asked : World ℕ
asked = after_issue start bread (issue_qp kernel 4 bread start.lane)

abbrev answered : World ℕ
answered = after_post 4 asked [] 2 1

-- The one read is reported with its cookie, as failed.
answered_told : (poll_from kernel 4 4 4096 answered.lane).0 ≡ (99, eio) ∷ []
unfolding fresh_qp count_down issue_qp take_cid map_read post_read poll_from take_cqe advance
    cqe_ready
answered_told = refl

abbrev lap_end : Dqp
lap_end = record zero_qp {
  cq_head = 2 ^ 16 - 1;
  cq_phase = 1;
  cq = λ _. record { result0 = 0; command_id = 0; status = 1 };
}

deepest_rereads_example : cqe_ready (advance (2 ^ 16) lap_end) ≡ true
deepest_rereads_example = deepest_rereads lap_end refl refl

abbrev wide_ctrl : Dctrl
wide_ctrl = record ctrl { dstrd = 6 }
