-- ===== src/Middle.antt =====
-- What one shard of the middle layer runs in: the tunables and load-time constants of
-- control/nvmevirt/coalesce.c, its counters, and the vtables of control/nvmevirt/coalesce_backend.h.
pub mod Deliver
pub mod Complete
pub mod Group
pub mod Issue
pub mod Reap
pub mod Bucket
pub mod Lap
pub mod Geometry
pub mod Radix
pub mod Keeps
mod Tests
mod Samples
pub mod Thread
use gpu_fpga_dma.Base.{ℕ, Bool, Option, List, Array}
use gpu_fpga_dma.Base.Words.{add64}
use gpu_fpga_dma.Ring.{Cqe}
use gpu_fpga_dma.Shard.{Shard, Ent, Waiter}

-- Module parameters, and the geometry that `nvmev_coalesce_init` derives from them. A flag that is
-- tested for zero is a Bool.
pub record Params : Type 0 where
  pub window : ℕ
  pub flush_us : ℕ
  pub flush_min : ℕ
  pub page : ℕ
  pub row : ℕ
  pub nsid : ℕ
  pub sort : ℕ
  pub bucket_shift : ℕ
  pub no_merge : Bool
  pub timeout_us : ℕ
  pub backend_is_real : Bool
  pub gpupull : Bool
  pub n_dev : ℕ
  pub n_shards : ℕ
  pub pend_cap : ℕ
  pub warena_cap : ℕ
  pub wcap : ℕ
  pub n_buckets : ℕ
  pub bucket_cap : ℕ
  -- `htab_mask` of every shard
  pub htab_mask : ℕ

-- `g_stats`
pub record Stats : Type 0 where
  pub flushes : ℕ
  pub reqs_in : ℕ
  pub unique_pages : ℕ
  pub page_merges : ℕ
  pub bytes_useful : ℕ
  pub bytes_read : ℕ
  pub max_window : ℕ
  pub sort_ns : ℕ
  pub max_inflight : ℕ
  pub timeouts : ℕ
  pub errors : ℕ
  pub prefilter_hits : ℕ
  pub reduce_merges : ℕ
  pub burst_full : ℕ
  pub burst_age : ℕ
  pub flush_w : ℕ
  pub flush_empty : ℕ
  pub flush_aged : ℕ
  pub burst_hist : Array ℕ
  pub dev_reads : Array ℕ

-- `atomic64_inc`
abbrev pub inc : ℕ → ℕ
inc n = add64 n 1

-- `struct co_bread`
pub record Bread : Type 0 where
  pub line_tag : ℕ
  pub dev : ℕ
  pub len : ℕ
  pub staging : ℕ
  pub spage : ℕ
  pub cookie : ℕ

-- What `issue_read` returns: 0, -EAGAIN, or another negative number.
pub data Issued : Type 0 where
  accepted again refused : Issued

-- `struct co_backend_ops` and `struct co_deliver_ops`, with the clock and the kernel's `sort`, over
-- the state `E` of all that lies outside the shard: devices, staging memory, VRAM, the completion
-- and descriptor rings.
pub record Ops (E : Type 0) : Type 0 where
  pub local_clock : E → ℕ × E
  -- `sort(win, n, sizeof(*win), cmp_tag, swp_ent)`
  pub sort : List Ent → List Ent
  pub sync : Bool
  pub issue_read : E → Bread → Issued × E
  -- the completions that one call of `poll` passes to `nvmev_co_backend_done`, as cookie and status
  pub poll : Option (E → ℕ → List (ℕ × ℕ) × E)
  pub row : E → ℕ → ℕ → ℕ → ℕ × E
  pub cqe : E → Cqe → E
  pub deliver : Option (E → Waiter → ℕ → ℕ → E)
  -- the cursors of the shard's descriptor ring
  pub gring_head : E → ℕ
  pub gring_tail : E → ℕ

-- A shard at work.
pub record Mid (E : Type 0) : Type 0 where
  pub shard : Shard
  pub stats : Stats
  pub env : E
