-- ===== src/GpuMem/Table.antt =====
-- The lookup table against the regions it is built from, and what `nvmev_gpu_kmap` returns:
-- control/nvmevirt/gpu_mem.c.
use gpu_fpga_dma.Base.{
  ℕ, suc, ◌+◌, ◌-◌, ◌%◌, ◌^◌, ◌≤◌, ◌<◌, ◌≡◌, refl, sym, ap, subst, ◌∙◌, Bool, true, Option, none,
  some, List, [], ◌∷◌, ◌++◌, leb, ◌==◌, if◌then◌else◌, length, length-append, arith, if-both,
}
use gpu_fpga_dma.Base.Words.{add64, sub64}
use gpu_fpga_dma.Base.Bits.{bit_and_mask}
use gpu_fpga_dma.GpuMem.{
  MapEntry, Region, Mgr, entry_at, page_size, gpu_max_regions, bsearch_page, host_page, found_page,
  lookup_page, gpu_kmap, valid_pages, rebuild,
}
use gpu_fpga_dma.GpuMem.Search.{IsSorted, Holds, Finds, bsearch_page-Finds}
use gpu_fpga_dma.GpuMem.Register.{
  Gpu, Outcome, Sys, add_region, drop_region, mem_unregister, take_region, found_later, page_base,
}

-- The host address of an entry's page.
abbrev pub base_of : MapEntry → ℕ
base_of e = elim e.kaddr [ none ↦ 0 | some k ↦ k ]

-- A host page with the byte of a bus address in it, or no entry that holds the address.
abbrev pub Points : List MapEntry → ℕ → Option ℕ → Type 0
Points t addr (some k) =
    (i : ℕ) × Holds t addr i
    × (k + (addr - (entry_at t i).phys_addr) % page_size
        ≡ base_of (entry_at t i) + (addr - (entry_at t i).phys_addr))
Points t addr none = (i : ℕ) → ¬ (Holds t addr i)

host_page_lem :
    (e : MapEntry) (addr : ℕ)
    → e.phys_addr ≤ addr
    → addr < 2 ^ 64
    → host_page e addr + (addr - e.phys_addr) % page_size ≡ base_of e + (addr - e.phys_addr)
unfolding host_page
host_page_lem e addr h w =
    let off : sub64 addr e.phys_addr ≡ addr - e.phys_addr = omega arith in
    omega (arith, off, bit_and_mask 12 (sub64 addr e.phys_addr), ap (λ t. t % page_size) off)

-- With a sorted table, `nvmev_gpu_kmap` returns the host page of the byte at the bus address, and
-- nothing exactly if no entry's page holds the address.
pub gpu_kmap-Points :
    (m : Mgr) (t : List MapEntry) (addr : ℕ)
    → m.lookup ≡ some t
    → IsSorted t
    → addr < 2 ^ 64
    → Points t addr (gpu_kmap m addr).0
unfolding gpu_kmap lookup_page
gpu_kmap-Points m t addr e v w =
    subst
      (λ o. Points t addr (lookup_page addr (record m { nr_lookups = add64 m.nr_lookups 1 }) o).0)
      (sym e) (go (bsearch_page t addr) (bsearch_page-Finds t v addr))
  where
    go :
        (o : Option ℕ)
        → Finds t addr o
        → Points t addr (found_page t addr (record m { nr_lookups = add64 m.nr_lookups 1 }) o).0
    go none h = h
    go (some i) h = (i, h, host_page_lem (entry_at t i) addr h.1 w)

-- The table that the regions ask for.
abbrev pub table_of : (List MapEntry → List MapEntry) → List Region → Option (List MapEntry)
table_of sort rs = if length (valid_pages rs) == 0 then none else some (sort (valid_pages rs))

abbrev pub pages_of : List Region → ℕ
pages_of [] = 0
pages_of (r ∷ rs) = length r.pages + pages_of rs

-- The counters and the table agree with the list of regions.
pub record IsConsistent (sort : List MapEntry → List MapEntry) (m : Mgr) : Type 0 where
  pub table : m.lookup ≡ table_of sort m.regions
  pub count : m.nr_regions ≡ length m.regions
  pub room : length m.regions ≤ gpu_max_regions
  pub pages : m.nr_pages_mapped ≡ pages_of m.regions % 2 ^ 64

pages_of-append : (rs qs : List Region) → pages_of (rs ++ qs) ≡ pages_of rs + pages_of qs
pages_of-append [] qs = omega arith
pages_of-append (r ∷ rs) qs = omega (arith, pages_of-append rs qs)

rebuild_table :
    (sort : List MapEntry → List MapEntry) (m : Mgr)
    → (rebuild sort true m).lookup ≡ table_of sort m.regions
unfolding rebuild
rebuild_table sort m = ground arith

rebuild_rest :
    (sort : List MapEntry → List MapEntry) (memory : Bool) (m : Mgr)
    → ((rebuild sort memory m).regions ≡ m.regions)
      × ((rebuild sort memory m).nr_regions ≡ m.nr_regions)
      × ((rebuild sort memory m).nr_pages_mapped ≡ m.nr_pages_mapped)
unfolding rebuild
rebuild_rest sort memory m = ground arith

rebuilt-IsConsistent :
    (sort : List MapEntry → List MapEntry) (m : Mgr)
    → m.nr_regions ≡ length m.regions
    → length m.regions ≤ gpu_max_regions
    → m.nr_pages_mapped ≡ pages_of m.regions % 2 ^ 64
    → IsConsistent sort (rebuild sort true m)
rebuilt-IsConsistent sort m n le p =
    let same = rebuild_rest sort true m in
    record {
      table = rebuild_table sort m ∙ ap (table_of sort) (sym same.0);
      count = same.1 ∙ n ∙ ap length (sym same.0);
      room = omega (arith, le, ap length same.0);
      pages = same.2 ∙ p ∙ ap (λ rs. pages_of rs % 2 ^ 64) (sym same.0);
    }

-- What is counted, without the region that is taken out.
abbrev Takes : List Region → Option (Region × List Region) → Type 0
Takes rs none = Unit {0}
Takes rs (some (r, qs)) =
    (length rs ≡ suc (length qs)) × (pages_of rs ≡ length r.pages + pages_of qs)

found_later-Takes :
    (x : Region) (xs : List Region) (o : Option (Region × List Region))
    → Takes xs o
    → Takes (x ∷ xs) (found_later x o)
unfolding found_later
found_later-Takes x xs none h = tt
found_later-Takes x xs (some (r, qs)) h = (omega (arith, h), omega (arith, h))

take_region-Takes : (va : ℕ) (rs : List Region) → Takes rs (take_region va rs)
unfolding take_region
take_region-Takes va [] = tt
take_region-Takes va (x ∷ xs) =
    if-both (Takes (x ∷ xs)) (x.gpu_va == va) _ _ (λ _. (refl, refl))
      (λ _. found_later-Takes x xs (take_region va xs) (take_region-Takes va xs))

module _ {E : Type 0} (g : Gpu E) where
  -- Adding a region, or refusing it, keeps table, counters and list in step, if the table can be
  -- allocated.
  pub add_region-IsConsistent :
      (r : Region) (s : Sys E)
      → IsConsistent g.sort s.mgr
      → IsConsistent g.sort (add_region g r true s).1.mgr
  unfolding add_region
  add_region-IsConsistent r s v =
      if-both (λ (o : Outcome × Sys E). IsConsistent g.sort o.1.mgr)
        (leb gpu_max_regions s.mgr.nr_regions) _ _ (λ _. v)
        (λ room.
          rebuilt-IsConsistent g.sort _
            (ground (arith, v.count, v.room, length-append s.mgr.regions (r ∷ [])))
            (ground (arith, v.count, length-append s.mgr.regions (r ∷ [])))
            (omega (arith, v.pages, pages_of-append s.mgr.regions (r ∷ []))))

  dropped-IsConsistent :
      (s : Sys E) (o : Option (Region × List Region))
      → Takes s.mgr.regions o
      → IsConsistent g.sort s.mgr
      → IsConsistent g.sort (drop_region g true s o).1.mgr
  unfolding drop_region
  dropped-IsConsistent s none h v = v
  dropped-IsConsistent s (some (r, rs)) h v =
      rebuilt-IsConsistent g.sort _ (omega (arith, v.count, v.room, h.0))
        (omega (arith, v.room, h.0)) (omega (arith, v.pages, h.1))

  -- Unregistering keeps table, counters and list in step, if the table can be allocated.
  pub mem_unregister-IsConsistent :
      (gpu_va : ℕ) (s : Sys E)
      → IsConsistent g.sort s.mgr
      → IsConsistent g.sort (mem_unregister g gpu_va true s).1.mgr
  unfolding mem_unregister
  mem_unregister-IsConsistent gpu_va s v =
      dropped-IsConsistent s (take_region (page_base gpu_va) s.mgr.regions)
        (take_region-Takes (page_base gpu_va) s.mgr.regions) v
