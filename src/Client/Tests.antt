-- ===== src/Client/Tests.antt =====
-- A client of two requests over one shard: src/isefs.c.
use gpu_fpga_dma.Base.{
  ℕ, ◌+◌, ◌-◌, ◌*◌, ◌/◌, ◌%◌, ◌≡◌, refl, true, false, Option, none, some, List, [], ◌∷◌, ◌++◌,
  arith,
}
use gpu_fpga_dma.Ring.{Req}
use gpu_fpga_dma.GpuMem.{Region, entry_at, gpu_page_size}
use gpu_fpga_dma.GpuMem.Pages.{covers, pages_in, start_page, page_span, clip_span, copy_pages}
use gpu_fpga_dma.GpuMem.Register.{page_base}
use gpu_fpga_dma.Client.{Dst, Handle, Rings, Progress, dst_phys_of}
use gpu_fpga_dma.Client.Address.{IsTableOf, dst_phys_of-entry}

-- What has been pushed, and the ids that wait to be popped.
record Memory : Type 0 where
  log : List (ℕ × Req)
  queue : List ℕ

pop_id : Memory → List ℕ → Option ℕ × Memory
pop_id m [] = (none, m)
pop_id m (id ∷ ids) = (some id, record m { queue = ids })

abbrev rings : Rings Memory
unfolding pop_id
rings = record {
  push = λ m k r. record m { log = m.log ++ (k, r) ∷ []; queue = m.queue ++ r.req_id ∷ [] };
  pop = λ m k. pop_id m m.queue;
}

abbrev buffer : Dst
buffer = record { va = 0x7000100; pg_phys = 0x10000 ∷ []; page_shift = 16; cap_rows = 2 }

abbrev handle : Handle
handle = record { nr_shards = 1; row = 256; page = 4096; dst = λ _. buffer }

abbrev ids : List ℕ
ids = 5 ∷ 9 ∷ []

abbrev start : Progress Memory
start = record { pushed = 0; done = 0; env = record { log = []; queue = [] } }

abbrev region : Region
region = record {
  gpu_va = 0x7000000;
  size = 0x10000;
  has_table = true;
  pages = record { phys_addr = 0x10000; kaddr = some 0x1010000 } ∷ [];
  valid = true;
  callback_fired = false;
}

buffer-IsTableOf : IsTableOf region buffer
unfolding covers pages_in start_page page_span clip_span copy_pages page_base
buffer-IsTableOf = record {
  len = 512;
  max = 4;
  region = record { aligned = refl; pages = refl; below = omega arith };
  inside = refl;
  shift = refl;
  pages = refl;
}

dst_phys_of-entry_example :
    dst_phys_of buffer 256 1
    ≡ (entry_at region.pages ((0x7000100 + 1 * 256 - 0x7000000) / gpu_page_size)).phys_addr
      + (0x7000100 + 1 * 256) % gpu_page_size
dst_phys_of-entry_example =
    dst_phys_of-entry region buffer 256 1 buffer-IsTableOf (omega arith) (omega arith) (omega arith)
