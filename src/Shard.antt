-- ===== src/Shard.antt =====
-- The state of one consumer shard, and its pools: `struct co_shard`, `struct co_ent`,
-- `struct co_waiter`, `struct co_pend_page` and the allocators of control/nvmevirt/coalesce.c.
-- An array that comes with a count of its used entries (`win`, `pend_free`, a bucket) is the list
-- of those entries; `pend_free` is a stack, its top first.
pub mod Chain
pub mod Pools
use gpu_fpga_dma.Base.{
  ℕ, zero, suc, ◌+◌, ◌^◌, ◌-◌, ◌%◌, Bool, true, false, List, [], ◌∷◌, ◌==◌, Array, update,
}
use gpu_fpga_dma.Base.Words.{add32, sub32}
use gpu_fpga_dma.Cookie.{gs_make, gs_gen, pend_free, pend_issued}
use gpu_fpga_dma.Ring.{Ring}

-- `CO_NIL`, which ends a chain.
abbrev pub co_nil : ℕ
co_nil = 0xFFFFFFFF

-- `struct co_ent`: a request in the window.
pub record Ent : Type 0 where
  pub line_tag : ℕ
  pub req_id : ℕ
  pub dst_phys : ℕ
  pub node_id : ℕ

-- `struct co_waiter`
pub record Waiter : Type 0 where
  pub req_id : ℕ
  pub dst_phys : ℕ
  pub off_in_page : ℕ
  pub next : ℕ

-- `struct co_pend_page`, whose `done_node` is the slot's own place in a list of slots.
pub record PendPage : Type 0 where
  pub line_tag : ℕ
  pub staging : ℕ
  pub spage : ℕ
  pub first_waiter : ℕ
  pub n_waiters : ℕ
  pub dev : ℕ
  pub gpu_wm : ℕ
  pub gpu_held_next : ℕ
  pub genstate : ℕ
  pub issue_ns : ℕ

-- `struct co_shard`. A `llist` of pending pages is the list of their slots, newest first.
pub record Shard : Type 0 where
  pub id : ℕ
  pub ring : Ring
  pub win : List Ent
  pub oldest_ns : ℕ
  pub last_scan_ns : ℕ
  pub win_sorted : Bool
  pub issue_pos : ℕ
  pub flush_uniq : ℕ
  pub pend : Array PendPage
  pub pend_free : List ℕ
  pub spool_kva : Array ℕ
  pub spool_pg : Array ℕ
  pub warena : Array Waiter
  pub wfree : ℕ
  pub wfree_n : ℕ
  pub done_list : List ℕ
  pub pend_return : List ℕ
  pub gpu_held : ℕ
  pub bkt : Array (List Ent)
  pub bkt_last : Array ℕ
  pub bkt_total : ℕ

abbrev pub set_page : Shard → ℕ → PendPage → Shard
set_page s slot p = record s { pend = update s.pend slot p }

-- What `pend_alloc` writes into the page that it takes.
abbrev pub armed : Shard → ℕ → ℕ → ℕ → ℕ → PendPage
armed s slot line_tag dev now = record (s.pend slot) {
  line_tag = line_tag;
  staging = s.spool_kva slot;
  spage = s.spool_pg slot;
  first_waiter = co_nil;
  n_waiters = 0;
  dev = dev % 2 ^ 8;
  issue_ns = now;
  genstate = gs_make (add32 (gs_gen (s.pend slot).genstate) 1) pend_issued;
}

-- `pend_alloc`: the slot, or `CO_NIL`.
unfoldable pub pend_alloc : Shard → ℕ → ℕ → ℕ → ℕ × Shard
pend_alloc s line_tag dev now = elim s.pend_free [
  | [] ↦ (co_nil, s)
  | slot ∷ rest ↦
      (slot, set_page (record s { pend_free = rest }) slot (armed s slot line_tag dev now))
]

-- `pend_free`: the generation stays.
unfoldable pub free_page : Shard → ℕ → Shard
free_page s slot = record s {
  pend =
      update s.pend slot
        (record (s.pend slot) { genstate = gs_make (gs_gen (s.pend slot).genstate) pend_free });
  pend_free = slot ∷ s.pend_free;
}

-- `waiter_alloc`: the head of the free chain, or `CO_NIL`.
unfoldable pub waiter_alloc : Shard → ℕ × Shard
waiter_alloc s = elim (s.wfree == co_nil) [
  | true ↦ (co_nil, s)
  | false ↦ (s.wfree, record s { wfree = (s.warena s.wfree).next; wfree_n = sub32 s.wfree_n 1 })
]

-- One round of `waiter_free_chain`: the node becomes the head of the free chain.
abbrev pub free_waiter : Shard → ℕ → Shard
free_waiter s w = record s {
  warena = update s.warena w (record (s.warena w) { next = s.wfree });
  wfree = w;
  wfree_n = add32 s.wfree_n 1;
}

-- `waiter_free_chain`. The fuel is the size of the arena, whose nodes a chain passes at most once.
unfoldable pub waiter_free_chain : ℕ → Shard → ℕ → Shard
waiter_free_chain zero s head = s
waiter_free_chain (suc f) s head = elim (head == co_nil) [
  | true ↦ s
  | false ↦ waiter_free_chain f (free_waiter s head) (s.warena head).next
]
