-- ===== src/Direct/Driver.antt =====
-- The vtable entries of control/nvmevirt/backend_direct.c over all controllers:
-- `backend_direct_issue_read` and `direct_poll`.
use gpu_fpga_dma.Base.{ℕ, zero, suc, ◌+◌, List, [], ◌++◌, leb, if◌then◌else◌, Array, update}
use gpu_fpga_dma.Cookie.{ck_shard}
use gpu_fpga_dma.Middle.{Bread, Issued, refused}
use gpu_fpga_dma.Direct.{Host, Lane, issue_qp, poll_qp}
use gpu_fpga_dma.Direct.Setup.{Dctrl, Ctl, Created, made, no_memory, io_error, qp_create}

-- `dctrls`, `nv_ndev` and `nv_inflight`.
pub record Direct (E : Type 0) : Type 0 where
  pub ctrls : Array Dctrl
  pub ndev : ℕ
  pub inflight : ℕ
  pub env : E

module _ {E : Type 0} where
  -- The queue pair of a shard on a controller, and the state with it put back.
  unfoldable pub lane_of : ℕ → ℕ → Direct E → Lane E
  lane_of dev sh d = record { q = (d.ctrls dev).qp sh; inflight = d.inflight; env = d.env }

  unfoldable pub put_lane : ℕ → ℕ → Lane E → Direct E → Direct E
  put_lane dev sh l d = record d {
    ctrls = update d.ctrls dev (record (d.ctrls dev) { qp = update (d.ctrls dev).qp sh l.q });
    inflight = l.inflight;
    env = l.env;
  }

  unfoldable pub put_ctl : ℕ → Ctl E → Direct E → Direct E
  put_ctl dev t d = record d { ctrls = update d.ctrls dev t.c; env = t.env }

module _ {E : Type 0} (h : Host E) (page : ℕ) where
  unfoldable pub issue_on : Bread → ℕ → Direct E → Issued × Direct E
  unfolding lane_of put_lane
  issue_on rd sh d =
      let (rc, l) = issue_qp h (d.ctrls rd.dev).io_qd rd (lane_of rd.dev sh d) in
      (rc, put_lane rd.dev sh l d)

  -- `if (rc) return rc;` after the lazy creation.
  unfoldable pub issue_created : Bread → ℕ → Direct E → Created × Ctl E → Issued × Direct E
  unfolding put_ctl issue_on
  issue_created rd sh d (made, t) = issue_on rd sh (put_ctl rd.dev t d)
  issue_created rd sh d (no_memory, t) = (refused, put_ctl rd.dev t d)
  issue_created rd sh d (io_error, t) = (refused, put_ctl rd.dev t d)

  unfoldable pub issue_read : Bread → Direct E → Issued × Direct E
  unfolding issue_on issue_created
  issue_read rd d =
      let sh = ck_shard rd.cookie in
      if leb d.ndev rd.dev
      then (refused, d)
      else if ((d.ctrls rd.dev).qp sh).created
      then issue_on rd sh d
      else issue_created rd sh d (qp_create h sh (record { c = d.ctrls rd.dev; env = d.env }))

  -- The controllers from `i` on, `n` of them, each polled with fuel `f`.
  unfoldable pub poll_devs : ℕ → ℕ → ℕ → ℕ → Direct E → List (ℕ × ℕ) × Direct E
  unfolding lane_of put_lane
  poll_devs f sh zero i d = ([], d)
  poll_devs f sh (suc n) i d =
      let (cs, l) = poll_qp h (d.ctrls i).io_qd f page (lane_of i sh d) in
      let (more, t) = poll_devs f sh n (i + 1) (put_lane i sh l d) in (cs ++ more, t)

  unfoldable pub direct_poll : ℕ → ℕ → Direct E → List (ℕ × ℕ) × Direct E
  unfolding poll_devs
  direct_poll f sh d = poll_devs f sh d.ndev 0 d
