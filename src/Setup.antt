-- ===== src/Setup.antt =====
-- The set-up of the middle layer: the geometry and the memory layout that `nvmev_coalesce_init` of
-- control/nvmevirt/coalesce.c computes from the module parameters, the pools of a shard, and `co_mmap`.
pub mod Power
pub mod Layout
pub mod Fresh
pub mod Init
mod Tests
use gpu_fpga_dma.Base.{
  ℕ, zero, suc, ◌+◌, ◌-◌, ◌*◌, ◌/◌, ◌%◌, ◌^◌, max, min, Bool, true, false, ◌&&◌, ◌||◌, not, List,
  [], ◌∷◌, ltb, leb, ◌==◌, if◌then◌else◌, Array,
}
use gpu_fpga_dma.Base.Words.{add32, mul32, u32}
use gpu_fpga_dma.Ring.{Ring}
use gpu_fpga_dma.Ring.Producers.{init_ring}
use gpu_fpga_dma.Shard.{Shard, Waiter, PendPage, co_nil}

-- The kernel's `clamp_val`, `round_up` and `roundup_pow_of_two`, which doubles from 1 on.
unfoldable pub clamp_val : ℕ → ℕ → ℕ → ℕ
clamp_val n lo hi = min (max n lo) hi

unfoldable pub round_up : ℕ → ℕ → ℕ
round_up n a = (n + (a - 1)) / a * a

unfoldable pub power_from : ℕ → ℕ → ℕ → ℕ
power_from zero p n = p
power_from (suc f) p n = elim (leb n p) [ true ↦ p | false ↦ power_from f (2 * p) n ]

unfoldable pub roundup_pow_of_two : ℕ → ℕ
unfolding power_from
roundup_pow_of_two n = power_from 32 1 n

-- `PAGE_ALIGN` of a 32-bit number
unfoldable pub page_align32 : ℕ → ℕ
page_align32 n = u32 (n + 4095) / 4096 * 4096

-- The sizes of `struct l1_ring`, `l1_req`, `l1_cqe`, `l1_gring` and `l1_gdesc`.
abbrev pub ring_bytes : ℕ
ring_bytes = 320

abbrev pub req_bytes : ℕ
req_bytes = 32

abbrev pub cqe_bytes : ℕ
cqe_bytes = 16

abbrev pub gring_bytes : ℕ
gring_bytes = 32

abbrev pub gdesc_bytes : ℕ
gdesc_bytes = 32

-- The module parameters, each an `unsigned int`.
pub record Knobs : Type 0 where
  pub cores : ℕ
  pub ring : ℕ
  pub page : ℕ
  pub staging : ℕ
  pub bucket_bits : ℕ
  pub bucket_cap : ℕ

-- What `nvmev_coalesce_init` computes from them, in the order of its locals and of the globals `g_`.
pub record Geometry : Type 0 where
  pub ring : ℕ
  pub hdr : ℕ
  pub seqb : ℕ
  pub rqb : ℕ
  pub cqb : ℕ
  pub page : ℕ
  pub pend_cap : ℕ
  pub n_buckets : ℕ
  pub bucket_cap : ℕ
  pub n_shards : ℕ
  pub shard_bytes : ℕ
  pub region_bytes : ℕ
  pub wcap : ℕ
  pub warena_cap : ℕ
  pub htab_sz : ℕ
  pub staging_bytes : ℕ
  pub desc_entries : ℕ
  pub desc_shard_bytes : ℕ
  pub desc_bytes : ℕ

-- The depth of the rings.
unfoldable pub ring_of : Knobs → ℕ
ring_of c = u32 (roundup_pow_of_two (if c.ring == 0 then 1024 else c.ring))

unfoldable pub geometry : Knobs → Geometry
unfolding ring_of clamp_val round_up page_align32
geometry c =
    let ring = ring_of c in
    let hdr = u32 (round_up ring_bytes 64) in
    let seqb = u32 (round_up (ring * 4) 64) in
    let rqb = u32 (ring * req_bytes) in
    let cqb = u32 (ring * cqe_bytes) in
    let pend_cap = u32 (roundup_pow_of_two (clamp_val c.staging 1 (2 ^ 16))) in
    let n_shards = clamp_val c.cores 1 32 in
    let shard_bytes = page_align32 (add32 (add32 (add32 hdr seqb) rqb) cqb) in
    let desc_shard_bytes = u32 (round_up (round_up gring_bytes 64 + ring * gdesc_bytes) 4096) in
    record {
      ring = ring;
      hdr = hdr;
      seqb = seqb;
      rqb = rqb;
      cqb = cqb;
      page = c.page;
      pend_cap = pend_cap;
      n_buckets = 2 ^ clamp_val c.bucket_bits 1 16;
      bucket_cap = clamp_val c.bucket_cap 2 4096;
      n_shards = n_shards;
      shard_bytes = shard_bytes;
      region_bytes = n_shards * shard_bytes;
      wcap = ring;
      warena_cap = mul32 ring 2;
      htab_sz = u32 (roundup_pow_of_two (mul32 ring 2));
      staging_bytes = n_shards * pend_cap * c.page;
      desc_entries = ring;
      desc_shard_bytes = desc_shard_bytes;
      desc_bytes = n_shards * desc_shard_bytes;
    }

-- The fields of `struct l1_ring` that say where its arrays are.
pub record Header : Type 0 where
  pub shard : ℕ
  pub nr_shards : ℕ
  pub rq_entries : ℕ
  pub cq_entries : ℕ
  pub rq_seq_off : ℕ
  pub rq_off : ℕ
  pub cq_off : ℕ
  pub shard_bytes : ℕ

unfoldable pub header : Geometry → ℕ → Header
header g k = record {
  shard = k;
  nr_shards = g.n_shards;
  rq_entries = g.ring;
  cq_entries = g.ring;
  rq_seq_off = g.hdr;
  rq_off = add32 g.hdr g.seqb;
  cq_off = add32 (add32 g.hdr g.seqb) g.rqb;
  shard_bytes = g.shard_bytes;
}

-- Where slot `i` of shard `k` is staged, from the start of `g_staging`.
unfoldable pub slot_at : Geometry → ℕ → ℕ → ℕ
slot_at g k i = k * g.pend_cap * g.page + i * g.page

-- The stack of the free slots, its top first.
unfoldable pub slots_below : ℕ → List ℕ
slots_below zero = []
slots_below (suc n) = n ∷ slots_below n

-- A page of the zeroed array `pend`.
abbrev pub no_page : PendPage
no_page = record {
  line_tag = 0;
  staging = 0;
  spage = 0;
  first_waiter = 0;
  n_waiters = 0;
  dev = 0;
  gpu_wm = 0;
  gpu_held_next = 0;
  genstate = 0;
  issue_ns = 0;
}

-- The link of node `i` in the free chain.
unfoldable pub next_free : ℕ → ℕ → ℕ
next_free cap i = if ltb (add32 i 1) cap then add32 i 1 else co_nil

-- `co_shard_pools_alloc` once its memory is there: `base` is `g_staging`, `to_page` is `vmalloc_to_page`,
-- and `junk` what the new arena happens to hold.
unfoldable pub pools_fill : Geometry → ℕ → (ℕ → ℕ) → Array Waiter → Shard → Shard
unfolding slot_at slots_below next_free
pools_fill g base to_page junk s = record s {
  done_list = [];
  pend_return = [];
  gpu_held = co_nil;
  win_sorted = false;
  issue_pos = 0;
  pend = λ _. no_page;
  spool_kva = λ i. base + slot_at g s.id i;
  spool_pg = λ i. to_page (base + slot_at g s.id i);
  pend_free = slots_below g.pend_cap;
  warena = λ i. record (junk i) { next = next_free g.warena_cap i };
  wfree = 0;
  wfree_n = g.warena_cap;
  bkt = λ _. [];
  bkt_last = λ _. 2 ^ 64 - 1;
  bkt_total = 0;
}

-- A shard of the zeroed array `g_shard` with its ring and an empty window.
unfoldable pub shard_init : Geometry → ℕ → Shard
unfolding init_ring
shard_init g k = record {
  id = k;
  ring = init_ring g.ring;
  win = [];
  oldest_ns = 0;
  last_scan_ns = 0;
  win_sorted = false;
  issue_pos = 0;
  flush_uniq = 0;
  pend = λ _. no_page;
  pend_free = [];
  spool_kva = λ _. 0;
  spool_pg = λ _. 0;
  warena = λ _. record { req_id = 0; dst_phys = 0; off_in_page = 0; next = 0 };
  wfree = 0;
  wfree_n = 0;
  done_list = [];
  pend_return = [];
  gpu_held = 0;
  bkt = λ _. [];
  bkt_last = λ _. 0;
  bkt_total = 0;
}

-- Which region `co_mmap` maps, and the check of its size.
pub data Mapped : Type 0 where
  staging : Mapped
  descriptors : Mapped
  rings : Mapped
  invalid : Mapped

-- `co_mmap`, by the page offset and the size asked for; the flags tell whether a region is allocated.
unfoldable pub mmap : Geometry → Bool → Bool → ℕ → ℕ → Mapped
mmap g has_staging has_desc pgoff sz =
    if pgoff == 2 ^ 34 / 4096
    then (if not has_staging || ltb g.staging_bytes sz then invalid else staging)
    else if pgoff == 2 * 2 ^ 34 / 4096
    then (if not has_desc || ltb g.desc_bytes sz then invalid else descriptors)
    else if ltb g.region_bytes sz
    then invalid
    else rings
