-- ===== src/Setup/Tests.antt =====
-- A small middle layer: four cells in a ring, two shards.
use gpu_fpga_dma.Base.{
  ℕ, zero, suc, ◌/◌, ◌+◌, ◌-◌, ◌^◌, ◌≤◌, ◌<◌, ◌≡◌, refl, Bool, true, false, [], arith,
}
use gpu_fpga_dma.Setup.{
  Knobs, geometry, header, slot_at, pools_fill, shard_init, ring_of, roundup_pow_of_two, power_from,
  clamp_val,
}
use gpu_fpga_dma.Middle.{Params, Stats}
use gpu_fpga_dma.Middle.Keeps.Issue.{Books}
use gpu_fpga_dma.Setup.Fresh.{pools_fill-Books}
use gpu_fpga_dma.Setup.Layout.{ring_overlaps, staging_apart}
use gpu_fpga_dma.Setup.Init.{Kernel, World, started, coalesce_init, coalesce_exit, unloaded}
use gpu_fpga_dma.Setup.Init.Counts.{Balanced, held}
use gpu_fpga_dma.Setup.Init.Balance.{coalesce_exit-Frees}

abbrev knobs : Knobs
knobs = record { cores = 2; ring = 4; page = 4096; staging = 3; bucket_bits = 1; bucket_cap = 4 }

-- Four cells: 320 + 64 + 128 + 64 bytes make one page.
knobs_ring : ring_of knobs ≡ 4
unfolding ring_of roundup_pow_of_two power_from
knobs_ring = refl

abbrev huge : Knobs
huge = record knobs { ring = 2 ^ 27 }

ring_overlaps_example : (header (geometry huge) 1).cq_off ≡ (header (geometry huge) 1).rq_off
ring_overlaps_example = ring_overlaps huge 1 (omega arith) (omega arith)

two_shards : 1 < (geometry knobs).n_shards
unfolding geometry clamp_val
two_shards = omega arith

four_slots : (geometry knobs).pend_cap ≡ 4
unfolding geometry clamp_val roundup_pow_of_two power_from
four_slots = refl

staging_apart_example :
    (slot_at (geometry knobs) 0 3 + 4096 ≤ slot_at (geometry knobs) 1 2)
    × (slot_at (geometry knobs) 1 2 + 4096 ≤ (geometry knobs).staging_bytes)
staging_apart_example =
    staging_apart knobs 0 1 3 2 (omega arith) two_shards (omega (arith, four_slots))
      (omega (arith, four_slots)) (λ e. absurd (omega (arith, e)))

abbrev params : Params
params = record {
  window = 4;
  flush_us = 200;
  flush_min = 1;
  page = 4096;
  row = 512;
  nsid = 1;
  sort = 1;
  bucket_shift = 0;
  no_merge = false;
  timeout_us = 0;
  backend_is_real = false;
  gpupull = false;
  n_dev = 1;
  n_shards = 2;
  pend_cap = (geometry knobs).pend_cap;
  warena_cap = (geometry knobs).warena_cap;
  wcap = 4;
  n_buckets = 2;
  bucket_cap = 4;
  htab_mask = 7;
}

abbrev no_stats : Stats
no_stats = record {
  flushes = 0;
  reqs_in = 0;
  unique_pages = 0;
  page_merges = 0;
  bytes_useful = 0;
  bytes_read = 0;
  max_window = 0;
  sort_ns = 0;
  max_inflight = 0;
  timeouts = 0;
  errors = 0;
  prefilter_hits = 0;
  reduce_merges = 0;
  burst_full = 0;
  burst_age = 0;
  flush_w = 0;
  flush_empty = 0;
  flush_aged = 0;
  burst_hist = λ _. 0;
  dev_reads = λ _. 0;
}

pools_fill-Books_example :
    Books params
      (λ (env : ℕ) r. 0)
      (λ r. 0)
      (record {
        shard =
            pools_fill
              (geometry knobs)
              0x10000
              (λ a. a / 4096)
              (shard_init (geometry knobs) 1).warena
              (shard_init (geometry knobs) 1);
        stats = no_stats;
        env = 0;
      })
pools_fill-Books_example =
    pools_fill-Books knobs 1 0x10000 (λ a. a / 4096) (shard_init (geometry knobs) 1).warena params
      (λ (env : ℕ) r. 0) no_stats 0 (omega arith) refl refl

-- A kernel that counts what is held and can create `left` more threads.
record Machine : Type 0 where
  held_now : ℕ
  left : ℕ

create : Machine → ℕ → Bool × Machine
create m zero = (false, m)
create m (suc n) = (true, record { held_now = m.held_now + 1; left = n })

abbrev kernel : Kernel Machine
kernel = record {
  alloc = λ m. (true, record m { held_now = m.held_now + 1 });
  free = λ m. record m { held_now = m.held_now - 1 };
  backend_init = λ q paths depth page m. (true, record m { held_now = m.held_now + 1 });
  backend_exit = λ m. record m { held_now = m.held_now - 1 };
  misc_register = λ m. (true, record m { held_now = m.held_now + 1 });
  misc_deregister = λ m. record m { held_now = m.held_now - 1 };
  kthread_create = λ m. create m m.left;
  kthread_stop = λ m. record m { held_now = m.held_now - 1 };
}

create-held : (m : Machine) (n : ℕ) → (create m n).1.held_now ≡ m.held_now + held (create m n).0 1
unfolding create held
create-held m zero = omega arith
create-held m (suc n) = refl

kernel-Balanced : Balanced kernel (λ m. m.held_now) 1 1 1 1
unfolding held
kernel-Balanced = record {
  alloc = λ m. refl;
  free = λ m. refl;
  up = λ q paths depth page m. refl;
  down = λ m. refl;
  register = λ m. refl;
  deregister = λ m. refl;
  create = λ m. create-held m m.left;
  stop = λ m. refl;
}

-- Three threads can be created, and the two shards want four.
abbrev machine : Machine
machine = record { held_now = 7; left = 3 }

-- Without reapers they are enough.
abbrev loaded : World Machine
loaded = (coalesce_init kernel [] false (geometry knobs) (unloaded machine)).1

loaded_started :
    coalesce_init kernel [] false (geometry knobs) (unloaded machine) ≡ (started, loaded)
unfolding coalesce_init geometry clamp_val create
loaded_started = refl

coalesce_exit-Frees_example :
    (coalesce_exit kernel (geometry knobs).n_shards loaded).env.held_now ≡ 7
coalesce_exit-Frees_example =
    coalesce_exit-Frees kernel-Balanced [] false (geometry knobs) machine loaded loaded_started
