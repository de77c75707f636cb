-- ===== src/GpuMem.antt =====
-- The GPU memory that the module has mapped: the regions, their sorted lookup table and its search, of
-- control/nvmevirt/gpu_mem.c. An address is a number, and NULL is `none`.
pub mod Search
pub mod Table
pub mod Register
pub mod Pages
pub mod Automap
pub mod Exit
mod Tests
use gpu_fpga_dma.Base.{
  ℕ, zero, suc, ◌+◌, ◌-◌, ◌*◌, ◌/◌, ◌%◌, ◌^◌, Bool, true, false, Option, none, some, List, [], ◌∷◌,
  ◌++◌, map, ltb, leb, ◌==◌, if◌then◌else◌, length, get_or,
}
use gpu_fpga_dma.Base.Words.{add64, sub64, and_not}

-- `NVMEV_GPU_PAGE_SIZE`, and `PAGE_SIZE` of the host.
abbrev pub gpu_page_size : ℕ
gpu_page_size = 2 ^ 16

abbrev pub page_size : ℕ
page_size = 2 ^ 12

abbrev pub gpu_max_regions : ℕ
gpu_max_regions = 64

-- `struct nvmev_gpu_map_entry`
pub record MapEntry : Type 0 where
  pub phys_addr : ℕ
  pub kaddr : Option ℕ

-- `struct nvmev_gpu_region`; `pages` has `nr_pages` entries.
pub record Region : Type 0 where
  pub gpu_va : ℕ
  pub size : ℕ
  pub has_table : Bool
  pub pages : List MapEntry
  pub valid : Bool
  pub callback_fired : Bool

-- `struct nvmev_gpu_mem_mgr`
pub record Mgr : Type 0 where
  pub lookup : Option (List MapEntry)
  pub regions : List Region
  pub nr_regions : ℕ
  pub nr_pages_mapped : ℕ
  pub nr_lookups : ℕ
  pub nr_hits : ℕ

-- What lies past the entries of a table; no search reads it.
abbrev pub no_entry : MapEntry
no_entry = record { phys_addr = 0; kaddr = none }

abbrev pub entry_at : List MapEntry → ℕ → MapEntry
entry_at t i = get_or t i no_entry

-- The loop of `__bsearch_page`; `hi` of the source, which may be -1, is `top - 1` here.
unfoldable pub bsearch_from : ℕ → List MapEntry → ℕ → ℕ → ℕ → Option ℕ
bsearch_from zero t addr lo top = none
bsearch_from (suc f) t addr lo top =
    let mid = lo + (top - 1 - lo) / 2 in
    let start = (entry_at t mid).phys_addr in
    elim (ltb lo top) [
      | false ↦ none
      | true ↦ elim (ltb addr start) [
        | true ↦ bsearch_from f t addr lo mid
        | false ↦ elim (leb (add64 start gpu_page_size) addr) [
          | true ↦ bsearch_from f t addr (mid + 1) top
          | false ↦ some mid
        ]
      ]
    ]

-- The range halves, so the number of entries and one turn for the last test are enough fuel.
unfoldable pub bsearch_page : List MapEntry → ℕ → Option ℕ
bsearch_page t addr = bsearch_from (suc (length t)) t addr 0 (length t)

-- `nvmev_is_gpu_addr`
unfoldable pub is_gpu_addr : Mgr → ℕ → Bool
is_gpu_addr m addr = elim m.lookup [
  | none ↦ false
  | some t ↦ (elim (bsearch_page t addr) [ none ↦ false | some i ↦ true ])
]

-- `kaddr + (offset & PAGE_MASK)` for the entry found; an unmapped entry gives an offset from NULL.
unfoldable pub host_page : MapEntry → ℕ → ℕ
host_page e addr =
    (elim e.kaddr [ none ↦ 0 | some k ↦ k ]) + and_not (sub64 addr e.phys_addr) (page_size - 1)

unfoldable pub found_page : List MapEntry → ℕ → Mgr → Option ℕ → Option ℕ × Mgr
found_page t addr m none = (none, m)
found_page t addr m (some i) =
    (some (host_page (entry_at t i) addr), record m { nr_hits = add64 m.nr_hits 1 })

unfoldable pub lookup_page : ℕ → Mgr → Option (List MapEntry) → Option ℕ × Mgr
lookup_page addr m none = (none, m)
lookup_page addr m (some t) = found_page t addr m (bsearch_page t addr)

-- `nvmev_gpu_kmap`
unfoldable pub gpu_kmap : Mgr → ℕ → Option ℕ × Mgr
unfolding lookup_page found_page
gpu_kmap m addr = lookup_page addr (record m { nr_lookups = add64 m.nr_lookups 1 }) m.lookup

-- The pages of all valid regions, in the order of the list.
unfoldable pub valid_pages : List Region → List MapEntry
valid_pages [] = []
valid_pages (r ∷ rs) = if r.valid then r.pages ++ valid_pages rs else valid_pages rs

-- `__rebuild_lookup_table`, with the kernel's `sort` by `__entry_cmp` and whether `kmalloc` has memory.
unfoldable pub rebuild : (List MapEntry → List MapEntry) → Bool → Mgr → Mgr
unfolding valid_pages
rebuild sort memory m =
    let pages = valid_pages m.regions in
    if length pages == 0
    then record m { lookup = none }
    else if memory
    then record m { lookup = some (sort pages) }
    else m
