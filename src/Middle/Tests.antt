-- ===== src/Middle/Tests.antt =====
-- One shard at work over a front end that logs its completions and a backend of one read.
use gpu_fpga_dma.Base.{
  ℕ, ◌+◌, ◌-◌, ◌*◌, ◌^◌, ◌≡◌, refl, ap, subst, Bool, true, false, Option, none, some, List, [], ◌∷◌,
  arith, ◌==◌, if◌then◌else◌,
}
use gpu_fpga_dma.Cookie.{co_cookie, gs_state, gs_make, gs_gen, ck_slot, ck_gen, ck_shard}
use gpu_fpga_dma.Ring.{Cqe}
use gpu_fpga_dma.Ring.Producers.{init_ring}
use gpu_fpga_dma.Shard.{Shard, Ent, co_nil}
use gpu_fpga_dma.Shard.Chain.{total}
use gpu_fpga_dma.Middle.{Params, Ops, Mid, Stats, accepted}
use gpu_fpga_dma.Middle.Issue.{flush_issue, issue_from, run_of, add_waiter}
use gpu_fpga_dma.Middle.Complete.{complete}
use gpu_fpga_dma.Middle.Deliver.{deliver_chain, deliver_row}
use gpu_fpga_dma.Middle.Lap.{reaper_lap, poll_backend, shard_idle}
use gpu_fpga_dma.Middle.Reap.{reap, drain_returns}
use gpu_fpga_dma.Middle.Keeps.Once.{Run, rest, on, issues, polls, delivers, drains, idle_each_once}
use gpu_fpga_dma.Middle.Keeps.Back.{Posts}
use gpu_fpga_dma.Middle.Keeps.Join.{wants}
use gpu_fpga_dma.Middle.Keeps.Issue.{Books, binned, flush_issue-Books}
use gpu_fpga_dma.Middle.Keeps.Laps.{reaper_lap-Books}
use gpu_fpga_dma.Middle.Keeps.Fuel.{issue_from-enough}

-- The outside world: a clock and the completions posted so far.
record World : Type 0 where
  clock : ℕ
  posts : List Cqe

abbrev logged : ℕ → List Cqe → ℕ
logged r [] = 0
logged r (c ∷ cs) = (if c.req_id == r then 1 else 0) + logged r cs

abbrev posted : World → ℕ → ℕ
posted w r = logged r w.posts

abbrev one_poll : World → ℕ → List (ℕ × ℕ) × World
one_poll w id = ((co_cookie 0 1 0, 0) ∷ [], w)

abbrev world_ops : Ops World
world_ops = record {
  local_clock = λ w. (w.clock, record w { clock = w.clock + 1 });
  sort = λ es. es;
  sync = false;
  issue_read = λ w b. (accepted, w);
  poll = some one_poll;
  row = λ w dst src len. (0, w);
  cqe = λ w c. record w { posts = c ∷ w.posts };
  deliver = none;
  gring_head = λ w. 0;
  gring_tail = λ w. 0;
}

abbrev is_some {ℓ} : {A : Type ℓ} → Option A → Bool
is_some none = false
is_some (some a) = true

abbrev Quiet : (w : World) (id r : ℕ) → Option (World → ℕ → List (ℕ × ℕ) × World) → Type 0
Quiet w id r none = Unit
Quiet w id r (some poll) = posted (poll w id).1 r ≡ posted w r

world-Posts : Posts world_ops posted
world-Posts = record {
  clock_posts = λ w r. refl;
  read_posts = λ w b r. refl;
  poll_posts = λ poll e w id r. subst (Quiet w id r) e refl;
  row_posts = λ w dst src len r. refl;
  cqe_posts = λ w c r. omega arith;
  deliver_posts = λ deliver e w wt src status r. absurd (ground (arith, ap is_some e));
}

abbrev pub params : Params
params = record {
  window = 4;
  flush_us = 200;
  flush_min = 1;
  page = 4096;
  row = 512;
  nsid = 1;
  sort = 1;
  bucket_shift = 0;
  no_merge = false;
  timeout_us = 0;
  backend_is_real = false;
  gpupull = false;
  n_dev = 1;
  n_shards = 1;
  pend_cap = 1;
  warena_cap = 2;
  wcap = 4;
  n_buckets = 1;
  bucket_cap = 4;
  htab_mask = 15;
}

abbrev no_stats : Stats
no_stats = record {
  flushes = 0;
  reqs_in = 0;
  unique_pages = 0;
  page_merges = 0;
  bytes_useful = 0;
  bytes_read = 0;
  max_window = 0;
  sort_ns = 0;
  max_inflight = 0;
  timeouts = 0;
  errors = 0;
  prefilter_hits = 0;
  reduce_merges = 0;
  burst_full = 0;
  burst_age = 0;
  flush_w = 0;
  flush_empty = 0;
  flush_aged = 0;
  burst_hist = λ _. 0;
  dev_reads = λ _. 0;
}

abbrev entry : ℕ → Ent
entry i = record { line_tag = 4096; req_id = i; dst_phys = 0; node_id = 8 + i }

-- A sealed window with two requests for one page, and all credits.
abbrev sealed : Shard
unfolding init_ring
sealed = record {
  id = 0;
  ring = init_ring 4;
  win = entry 1 ∷ entry 2 ∷ [];
  oldest_ns = 0;
  last_scan_ns = 0;
  win_sorted = true;
  issue_pos = 0;
  flush_uniq = 1;
  pend = λ _. record {
    line_tag = 0;
    staging = 0;
    spage = 0;
    first_waiter = co_nil;
    n_waiters = 0;
    dev = 0;
    gpu_wm = 0;
    gpu_held_next = co_nil;
    genstate = 0;
    issue_ns = 0;
  };
  pend_free = 0 ∷ [];
  spool_kva = λ i. i * 4096;
  spool_pg = λ i. i;
  warena = λ i. record {
    req_id = 0;
    dst_phys = 0;
    off_in_page = 0;
    next = if i == 0 then 1 else co_nil;
  };
  wfree = 0;
  wfree_n = 2;
  done_list = [];
  pend_return = [];
  gpu_held = co_nil;
  bkt = λ _. [];
  bkt_last = λ _. 2 ^ 64 - 1;
  bkt_total = 0;
}

abbrev start : Mid World
unfolding sealed
start = record { shard = sealed; stats = no_stats; env = record { clock = 0; posts = [] } }

abbrev asked : ℕ → ℕ
asked r = wants r (entry 1 ∷ entry 2 ∷ [])

start-Books : Books params posted asked start
unfolding sealed total gs_state
start-Books = record {
  waits = λ _. 0;
  account = record {
    ghost = record { free = 0 ∷ 1 ∷ []; chain = λ _. []; held = []; hand = [] };
    pools = record {
      few_slots = omega arith;
      few_waiters = omega arith;
      free_chain = (refl, ground arith, (refl, ground arith, refl));
      chains = λ i h o. ground arith;
      bare = λ i o. refl;
      nodes = λ w. ground arith;
      counted = refl;
      sizes = refl;
      slots = λ i. ground arith;
      held_chain = refl;
    };
    in_hand = refl;
    waits_for = λ r. refl;
  };
  balance = λ r. omega arith;
}

flush_issue-Books_example : Books params posted asked (flush_issue world_ops params start)
flush_issue-Books_example =
    flush_issue-Books world_ops params posted world-Posts asked start start-Books

reaper_lap-Books_example :
    Books params posted asked (reaper_lap world_ops params (flush_issue world_ops params start))
reaper_lap-Books_example =
    reaper_lap-Books world_ops params posted world-Posts asked (flush_issue world_ops params start)
      (flush_issue-Books world_ops params posted world-Posts asked start start-Books)

-- The window is issued, the backend completes the read, the rows are delivered, the page returns.
abbrev finished : Mid World
finished =
    let m =
      reap world_ops params (poll_backend world_ops params (flush_issue world_ops params start)) in
    record m { shard = drain_returns params m.shard }

finished-Run : Run world_ops params start finished
finished-Run = on (on (on (on rest issues) polls) delivers) drains

finished_idle : shard_idle params finished.shard ≡ true
unfolding shard_idle drain_returns reap poll_backend ck_shard co_cookie flush_issue run_of
    add_waiter complete ck_slot gs_make gs_gen ck_gen sealed
finished_idle = refl

idle_each_once_example : binned params finished.shard 2 + posted finished.env 2 ≡ asked 2
idle_each_once_example =
    idle_each_once world_ops params posted world-Posts asked start-Books finished-Run finished_idle
      2

-- Both requests of the window are posted, without error, and once.
finished_posts :
    finished.env.posts ≡ record { req_id = 1; status = 0 } ∷ record { req_id = 2; status = 0 } ∷ []
unfolding drain_returns reap poll_backend ck_shard co_cookie flush_issue run_of add_waiter complete
    ck_slot gs_make gs_gen gs_state deliver_chain deliver_row ck_gen sealed
finished_posts = refl

issue_from-enough_example :
    issue_from world_ops params (3 + 2) 0 start ≡ issue_from world_ops params 2 0 start
unfolding start
issue_from-enough_example =
    issue_from-enough world_ops params posted world-Posts asked 0 2 3 start start-Books
      (omega arith)
