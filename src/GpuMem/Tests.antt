-- ===== src/GpuMem/Tests.antt =====
-- Runs of the GPU memory manager on small regions: control/nvmevirt/gpu_mem.c.
use gpu_fpga_dma.Base.{
  ℕ, zero, suc, ◌+◌, ◌-◌, ◌/◌, ◌%◌, ◌^◌, ◌<◌, ◌≤◌, ◌≡◌, refl, true, false, some, List, [], ◌∷◌,
  arith, min,
}
use gpu_fpga_dma.GpuMem.{
  MapEntry, Region, Mgr, entry_at, gpu_kmap, bsearch_page, bsearch_from, lookup_page, found_page,
  host_page, gpu_page_size, valid_pages,
}
use gpu_fpga_dma.GpuMem.Search.{IsSorted, Finds, bsearch_page-Finds}
use gpu_fpga_dma.GpuMem.Table.{Points, gpu_kmap-Points, IsConsistent, mem_unregister-IsConsistent}
use gpu_fpga_dma.GpuMem.Register.{Gpu, PageTable, Sys, mem_register, mem_unregister}
use gpu_fpga_dma.GpuMem.Register.Leaks.{Balanced, Leaves, mem_register-Leaves}
use gpu_fpga_dma.GpuMem.Pages.{
  IsRegion, covers, region_span, region_overread, start_page, page_span, clip_span, wrapping_len,
}
use gpu_fpga_dma.GpuMem.Automap.{Cache, auto_map, scan, unlocked, locked, add_mapping, region_base}
use gpu_fpga_dma.GpuMem.Exit.{mem_init}

abbrev table : PageTable
table = record { compatible = true; is_64k = true; pages = 0x20000 ∷ 0x10000 ∷ [] }

-- Drivers whose state is the number of live resources. Two pages, already in order, come sorted.
abbrev drivers : Gpu ℕ
drivers = record {
  get_pages = λ e va n. (some table, e + 1);
  put_pages = λ e va. e - 1;
  free_table = λ e. e - 1;
  ioremap_wc = λ e pa n. (some (pa + 0x1000000), e + 1);
  iounmap = λ e k. e - 1;
  kmalloc = λ e. (true, e + 1);
  kfree = λ e. e - 1;
  sort = λ ps. ps;
}

drivers-Balanced : Balanced drivers (λ e. e)
drivers-Balanced = record {
  get = λ e va n. refl;
  put = λ e va. refl;
  free = λ e. refl;
  map = λ e pa n. refl;
  unmap = λ e k. refl;
  kmalloc = λ e. refl;
  kfree = λ e. refl;
}

abbrev entries : List MapEntry
entries =
    record { phys_addr = 0x10000; kaddr = some 0x1010000 }
    ∷ record { phys_addr = 0x20000; kaddr = some 0x1020000 }
    ∷ []

abbrev region : Region
region = record {
  gpu_va = 0x7000000;
  size = 0x20000;
  has_table = true;
  pages = entries;
  valid = true;
  callback_fired = false;
}

abbrev other : Region
other = record region { gpu_va = 0x8000000 }

abbrev mgr : Mgr
mgr = record mem_init {
  lookup = some entries;
  regions = region ∷ [];
  nr_regions = 1;
  nr_pages_mapped = 2;
}

abbrev sys : Sys ℕ
sys = record { mgr = mgr; env = 5 }

entries-IsSorted : IsSorted entries
entries-IsSorted = record { ascends = ascends; fits = fits }
  where
    at : ℕ → ℕ
    at i = (entry_at entries i).phys_addr

    ascends : (i j : ℕ) → i ≤ j → j < 2 → at i ≤ at j
    ascends zero zero le lt = omega arith
    ascends zero (suc zero) le lt = omega arith
    ascends (suc zero) (suc zero) le lt = omega arith
    ascends i (suc (suc j)) le lt = absurd (omega arith)
    ascends (suc i) zero le lt = absurd (omega arith)
    ascends (suc (suc i)) (suc zero) le lt = absurd (omega arith)

    fits : (i : ℕ) → i < 2 → at i + gpu_page_size < 2 ^ 64
    fits zero lt = omega arith
    fits (suc zero) lt = omega arith
    fits (suc (suc i)) lt = absurd (omega arith)

bsearch_page-Finds_example : Finds entries 0x23456 (bsearch_page entries 0x23456)
bsearch_page-Finds_example = bsearch_page-Finds entries entries-IsSorted 0x23456

gpu_kmap-Points_example : Points entries 0x23456 (gpu_kmap mgr 0x23456).0
gpu_kmap-Points_example = gpu_kmap-Points mgr entries 0x23456 refl entries-IsSorted (omega arith)

found : (gpu_kmap mgr 0x23456).0 ≡ some 0x1023000
unfolding gpu_kmap lookup_page found_page bsearch_page bsearch_from host_page
found = refl

mem_register-Leaves_example :
    Leaves drivers (λ e. e) drivers-Balanced sys (mem_register drivers 0x9000000 0x1FFFF true sys)
mem_register-Leaves_example =
    mem_register-Leaves drivers (λ e. e) drivers-Balanced 0x9000000 0x1FFFF true sys

mgr-IsConsistent : IsConsistent (λ ps. ps) mgr
unfolding valid_pages
mgr-IsConsistent = record { table = refl; count = refl; room = omega arith; pages = refl }

mem_unregister-IsConsistent_example :
    IsConsistent (λ ps. ps) (mem_unregister drivers 0x7000000 true sys).1.mgr
mem_unregister-IsConsistent_example =
    mem_unregister-IsConsistent drivers 0x7000000 sys mgr-IsConsistent

abbrev two : Sys ℕ
two = record sys { mgr = record mgr { regions = region ∷ other ∷ []; nr_regions = 2 } }

region-IsRegion : IsRegion region
region-IsRegion = record { aligned = refl; pages = refl; below = omega arith }

region_inside : covers region 0x7010000 ≡ true
unfolding covers
region_inside = refl

region_span_example :
    (start_page region 0x7010000 ≡ (0x7010000 - 0x7000000) / gpu_page_size)
    × (start_page region 0x7010000 < 2)
    × (clip_span (start_page region 0x7010000) (page_span 0x7010000 4096) 2 9
        ≡ min
            (min
              ((0x7010000 % gpu_page_size + 4096 + gpu_page_size - 1) / gpu_page_size)
              (2 - start_page region 0x7010000))
            9)
region_span_example =
    region_span region 0x7010000 4096 9 region-IsRegion region_inside (omega arith)

region_overread_example :
    2
    < start_page region 0x7010000
      + clip_span
          (start_page region 0x7010000)
          (page_span 0x7010000 (wrapping_len (start_page region 0x7010000)))
          2
          9
region_overread_example =
    region_overread region 0x7010000 9 region-IsRegion region_inside refl (omega arith)
      (omega arith) (omega arith)

abbrev cache : Cache ℕ
cache = record { entries = []; hits = 0; env = 0 }

first_map : (auto_map drivers 0 cache 0x30001234).0 ≡ some 0x31001234
unfolding auto_map unlocked locked add_mapping scan region_base
first_map = refl
