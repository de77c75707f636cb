-- ===== src/GpuMem/Exit.antt =====
-- `nvmev_gpu_mem_init` and `nvmev_gpu_mem_exit` of control/nvmevirt/gpu_mem.c.
use gpu_fpga_dma.Base.{ℕ, ◌+◌, ◌-◌, ◌≡◌, refl, none, List, [], ◌∷◌, arith}
use gpu_fpga_dma.GpuMem.{Region, Mgr}
use gpu_fpga_dma.GpuMem.Register.{Gpu, Sys, free_region, unmap_one}
use gpu_fpga_dma.GpuMem.Register.Leaks.{Balanced, held, there, live-free_region, live-unmap_one}
use gpu_fpga_dma.GpuMem.Automap.{Cache, AutomapEntry, unmap_entries, automap_cleanup}

abbrev pub mem_init : Mgr
mem_init = record {
  lookup = none;
  regions = [];
  nr_regions = 0;
  nr_pages_mapped = 0;
  nr_lookups = 0;
  nr_hits = 0;
}

module _ {E : Type 0} (g : Gpu E) where
  unfoldable pub free_regions : List Region → E → E
  free_regions [] env = env
  free_regions (r ∷ rs) env = free_regions rs (free_region g r env)

  -- The regions, then the cache, whose `env` is the one the regions leave.
  unfoldable pub mem_exit : Sys E → Cache E → Sys E × Cache E
  unfolding free_regions
  mem_exit s c =
      let env = free_regions s.mgr.regions s.env in
      let c' = automap_cleanup g (record c { env = env }) in
      (record { mgr = record s.mgr { lookup = none; regions = [] }; env = c'.env }, c')

abbrev pub held_all : List Region → ℕ
held_all [] = 0
held_all (r ∷ rs) = held r + held_all rs

abbrev pub cached : List AutomapEntry → ℕ
cached [] = 0
cached (e ∷ es) = there e.kaddr + cached es

module _ {E : Type 0} (g : Gpu E) (live : E → ℕ) (law : Balanced g live) where
  live-free_regions :
      (rs : List Region) (env : E) → live (free_regions g rs env) ≡ live env - held_all rs
  unfolding free_regions
  live-free_regions [] env = omega arith
  live-free_regions (r ∷ rs) env =
      omega (arith, live-free_regions rs (free_region g r env), live-free_region g live law r env)

  live-unmap_entries :
      (es : List AutomapEntry) (env : E) → live (unmap_entries g es env) ≡ live env - cached es
  unfolding unmap_entries
  live-unmap_entries [] env = omega arith
  live-unmap_entries (e ∷ es) env = omega (
    arith,
    live-unmap_entries es (unmap_one g e.kaddr env),
    live-unmap_one g live law e.kaddr env,
  )

  -- Unloading frees all that the registered regions and the cached mappings hold, and leaves neither
  -- table, region nor mapping.
  pub mem_exit_frees :
      (s : Sys E) (c : Cache E)
      → (live (mem_exit g s c).0.env ≡ live s.env - held_all s.mgr.regions - cached c.entries)
        × ((mem_exit g s c).0.mgr.lookup ≡ none)
        × ((mem_exit g s c).0.mgr.regions ≡ [])
        × ((mem_exit g s c).1.entries ≡ [])
  unfolding mem_exit automap_cleanup
  mem_exit_frees s c = (
    omega (
      arith,
      live-free_regions s.mgr.regions s.env,
      live-unmap_entries c.entries (free_regions g s.mgr.regions s.env),
    ),
    refl,
    refl,
    refl,
  )
