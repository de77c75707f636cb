-- ===== src/Middle/Issue.antt =====
-- The issue phase: `co_map_backend` and `co_flush_issue`.
use gpu_fpga_dma.Base.{
  ℕ, zero, suc, ◌+◌, ◌-◌, ◌/◌, ◌^◌, ◌%◌, bit_and, false, ◌||◌, List, [], ◌∷◌, ◌==◌, ltb,
  if◌then◌else◌, update, length, take, drop,
}
use gpu_fpga_dma.Base.Words.{u16, u32, sub32, add64, mul64, ilog2}
use gpu_fpga_dma.Cookie.{co_cookie, gs_gen}
use gpu_fpga_dma.Shard.{
  Shard, Ent, set_page, pend_alloc, free_page, waiter_alloc, waiter_free_chain,
}
use gpu_fpga_dma.Middle.{Ops, Params, Mid, Stats, Bread, Issued, accepted, again, refused, inc}
use gpu_fpga_dma.Middle.Deliver.{deliver_chain}

-- `co_map_backend`: the backend device of a global page offset, and the offset on that device.
unfoldable pub map_backend : Params → ℕ → ℕ × ℕ
map_backend p tag =
    if p.backend_is_real
    then if ltb 1 p.n_dev
      then (let shift = ilog2 p.page in
          let page = tag / 2 ^ shift in (u32 (page % p.n_dev), mul64 (page / p.n_dev) (2 ^ shift)))
      else (0, tag)
    else (if p.nsid == 0 then 0 else p.nsid - 1, tag)

-- How many further entries have the tag.
unfoldable pub same_tag : ℕ → List Ent → ℕ
same_tag tag [] = 0
same_tag tag (e ∷ es) = let more = suc (same_tag tag es) in if e.line_tag == tag then more else 0

-- The entries from the window's position `i` on that one read serves.
unfoldable pub run_of : Params → List Ent → List Ent
unfolding same_tag
run_of p [] = []
run_of p (e ∷ es) = e ∷ (if p.no_merge then [] else take (same_tag e.line_tag es) es)

-- `(u16)(((u64)node_id * coalesce_row) & (coalesce_page - 1))`
unfoldable pub off_in_page : Params → ℕ → ℕ
off_in_page p node_id = u16 (bit_and (mul64 node_id p.row) (sub32 p.page 1))

-- A node of the arena, filled from a window entry and put at the head of the page's chain.
unfoldable pub add_waiter : Params → ℕ → Shard → Ent → Shard
unfolding waiter_alloc off_in_page
add_waiter p slot s e =
    let (wi, s') = waiter_alloc s in
    let page = s'.pend slot in
    record (set_page s' slot (record page { first_waiter = wi })) {
      warena = update s'.warena wi (record {
        req_id = e.req_id;
        dst_phys = e.dst_phys;
        off_in_page = off_in_page p e.node_id;
        next = page.first_waiter;
      });
    }

unfoldable pub add_waiters : Params → ℕ → Shard → List Ent → Shard
add_waiters p slot s [] = s
add_waiters p slot s (e ∷ es) = add_waiters p slot (add_waiter p slot s e) es

-- The slot of a run, with its waiters.
unfoldable pub fill_page : Params → Shard → ℕ → ℕ → ℕ → List Ent → ℕ × Shard
unfolding add_waiters pend_alloc
fill_page p s tag dev now run =
    let (slot, s1) = pend_alloc s tag dev now in
    let s2 = add_waiters p slot s1 run in
    (slot, set_page s2 slot (record (s2.pend slot) { n_waiters = u16 (length run) }))

-- The chain and the slot go back to the pools.
unfoldable pub give_back : Params → Shard → ℕ → Shard
unfolding waiter_free_chain free_page
give_back p s slot = free_page (waiter_free_chain p.warena_cap s (s.pend slot).first_waiter) slot

-- How the loop goes on after a run: it stops, or stands behind the run.
pub data Next (E : Type 0) : Type 0 where
  stop : Mid E → Next E
  go_on : Mid E → Next E

module _ {E : Type 0} (ops : Ops E) (p : Params) where
  abbrev pub bread_of : Shard → ℕ → ℕ → ℕ → Bread
  bread_of s slot dev dev_off = record {
    line_tag = dev_off;
    dev = dev;
    len = p.page;
    staging = (s.pend slot).staging;
    spage = (s.pend slot).spage;
    cookie = co_cookie s.id (gs_gen (s.pend slot).genstate) slot;
  }

  abbrev pub note_inflight : Shard → Stats → Stats
  note_inflight s st =
      let in_use = sub32 p.pend_cap (length s.pend_free) in
      if ltb (u32 st.max_inflight) in_use then record st { max_inflight = in_use } else st

  abbrev pub deliver_page : Shard → ℕ → E → ℕ → E
  deliver_page s slot env status =
      deliver_chain ops p p.warena_cap s.warena env (s.pend slot).first_waiter (s.pend slot).staging
        status

  -- What follows `issue_read`, by what it returned.
  unfoldable pub settle_read : Issued → Shard → Stats → E → ℕ → Next E
  settle_read again s st env slot =
      stop (record { shard = give_back p s slot; stats = st; env = env })
  settle_read refused s st env slot = go_on (record {
    shard = give_back p s slot;
    stats = record st { errors = inc st.errors };
    env = deliver_page s slot env 1;
  })
  settle_read accepted s st env slot =
      if ops.sync
      then go_on
          (record { shard = give_back p s slot; stats = st; env = deliver_page s slot env 0 })
      else go_on (record { shard = s; stats = note_inflight s st; env = env })

  -- One round of the loop: the read of a run of entries with tag `tag`.
  unfoldable pub issue_run : ℕ → Mid E → ℕ → List Ent → Next E
  unfolding settle_read fill_page give_back
  issue_run now m tag run =
      let s = m.shard in
      if (length s.pend_free == 0) || ltb s.wfree_n (length run)
      then stop m
      else (let (dev, dev_off) = map_backend p tag in
          let (slot, s') = fill_page p s tag dev now run in
          let st = m.stats in
          let st' = record st { dev_reads = update st.dev_reads dev (inc (st.dev_reads dev)) } in
          let (rc, env) = ops.issue_read m.env (bread_of s' slot dev dev_off) in
          settle_read rc s' st' env slot)

  -- The loop from position `issue_pos`; the fuel is the number of entries from there on.
  unfoldable pub issue_from : ℕ → ℕ → Mid E → Mid E
  unfolding issue_run
  issue_from zero now m = m
  issue_from (suc f) now m =
      let i = (m.shard).issue_pos in
      let rest = drop i (m.shard).win in
      let run = run_of p rest in
      elim rest [
        | [] ↦ m
        | e ∷ es ↦ elim (issue_run now m e.line_tag run) [
          | stop m' ↦ m'
          | go_on m' ↦
              issue_from f now
                (record m' { shard = record (m'.shard) { issue_pos = i + length run } })
        ]
      ]

  -- The counters of a window that is issued whole.
  abbrev pub charge : ℕ → ℕ → Stats → Stats
  charge n uniq st = record st {
    flushes = inc st.flushes;
    reqs_in = add64 st.reqs_in n;
    unique_pages = add64 st.unique_pages uniq;
    page_merges = add64 st.page_merges (sub32 n uniq);
    bytes_useful = add64 st.bytes_useful (mul64 n p.row);
    bytes_read = add64 st.bytes_read (mul64 uniq p.page);
    max_window = if ltb (u32 st.max_window) n then n else st.max_window;
  }

  -- `co_flush_issue`
  unfoldable pub flush_issue : Mid E → Mid E
  unfolding issue_from
  flush_issue m =
      let (now, env) = ops.local_clock m.env in
      let n = length (m.shard).win in
      let m' = issue_from n now (record m { env = env }) in
      let s = m'.shard in
      if s.issue_pos == n
      then record m' {
        shard = record s { win = []; win_sorted = false; issue_pos = 0 };
        stats = charge n s.flush_uniq m'.stats;
      }
      else m'
