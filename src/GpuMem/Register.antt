-- ===== src/GpuMem/Register.antt =====
-- `nvmev_gpu_mem_register` and `nvmev_gpu_mem_unregister` of control/nvmevirt/gpu_mem.c.
pub mod Leaks
use gpu_fpga_dma.Base.{
  ℕ, zero, suc, ◌+◌, ◌-◌, ◌%◌, ◌^◌, Bool, true, false, not, Option, none, some, List, [], ◌∷◌, ◌++◌,
  leb, ◌==◌, if◌then◌else◌, length,
}
use gpu_fpga_dma.Base.Words.{add64, sub64, and_not}
use gpu_fpga_dma.GpuMem.{MapEntry, Region, Mgr, gpu_page_size, gpu_max_regions, rebuild}

-- `struct nvidia_p2p_page_table`: whether its version is compatible, whether it has 64 KB pages, and
-- their physical addresses.
pub record PageTable : Type 0 where
  pub compatible : Bool
  pub is_64k : Bool
  pub pages : List ℕ

-- The NVIDIA driver and the kernel, over the state `E` outside the module.
pub record Gpu (E : Type 0) : Type 0 where
  -- `nvidia_p2p_get_pages`, with `none` for an error
  pub get_pages : E → ℕ → ℕ → Option PageTable × E
  -- `nvidia_p2p_put_pages` and `nvidia_p2p_free_page_table`
  pub put_pages : E → ℕ → E
  pub free_table : E → E
  pub ioremap_wc : E → ℕ → ℕ → Option ℕ × E
  pub iounmap : E → ℕ → E
  pub kmalloc : E → Bool × E
  pub kfree : E → E
  -- `sort` by `__entry_cmp`
  pub sort : List MapEntry → List MapEntry

-- 0, -ENOMEM, the error of the NVIDIA driver, -EINVAL, -ENOSPC, -ENOENT.
pub data Outcome : Type 0 where
  done no_memory p2p_error invalid no_space no_entry : Outcome

-- The manager with the world outside.
pub record Sys (E : Type 0) : Type 0 where
  pub mgr : Mgr
  pub env : E

unfoldable pub page_base : ℕ → ℕ
page_base va = and_not va (gpu_page_size - 1)

-- `ALIGN(x, NVMEV_GPU_PAGE_SIZE)`
unfoldable pub page_align : ℕ → ℕ
page_align x = and_not (add64 x (gpu_page_size - 1)) (gpu_page_size - 1)

-- The region after `kzalloc`, with its range.
abbrev pub new_region : ℕ → ℕ → Region
new_region va size = record {
  gpu_va = va;
  size = size;
  has_table = false;
  pages = [];
  valid = true;
  callback_fired = false;
}

-- The region found further on in the list.
unfoldable pub found_later : Region → Option (Region × List Region) → Option (Region × List Region)
found_later r none = none
found_later r (some (q, qs)) = some (q, r ∷ qs)

-- The first region at an address, and the others.
unfoldable pub take_region : ℕ → List Region → Option (Region × List Region)
unfolding found_later
take_region va [] = none
take_region va (r ∷ rs) = if r.gpu_va == va then some (r, rs) else found_later r (take_region va rs)

module _ {E : Type 0} (g : Gpu E) where
  -- One turn of `__unmap_region_pages`.
  unfoldable pub unmap_one : Option ℕ → E → E
  unmap_one none env = env
  unmap_one (some k) env = g.iounmap env k

  -- `__unmap_region_pages`
  unfoldable pub unmap_pages : List MapEntry → E → E
  unfolding unmap_one
  unmap_pages [] env = env
  unmap_pages (p ∷ ps) env = unmap_pages ps (unmap_one p.kaddr env)

  -- `__release_nvidia_pages`
  unfoldable pub release_pages : Region → E → E
  release_pages r env =
      if not r.has_table
      then env
      else if r.callback_fired
      then g.free_table env
      else g.put_pages env r.gpu_va

  -- `__free_region`
  unfoldable pub free_region : Region → E → E
  unfolding unmap_pages release_pages
  free_region r env = g.kfree (g.kfree (release_pages r (unmap_pages r.pages env)))

  -- The loop that maps the pages; the second list is what is mapped so far, in order.
  unfoldable pub map_pages : List ℕ → List MapEntry → E → Bool × List MapEntry × E
  map_pages [] acc env = (true, acc, env)
  map_pages (pa ∷ pas) acc env =
      let (k, env') = g.ioremap_wc env pa gpu_page_size in
      elim k [
        | none ↦ (false, acc, env')
        | some a ↦ map_pages pas (acc ++ record { phys_addr = pa; kaddr = some a } ∷ []) env'
      ]

  -- Under the manager's lock.
  unfoldable pub add_region : Region → Bool → Sys E → Outcome × Sys E
  unfolding free_region
  add_region r memory s =
      if leb gpu_max_regions s.mgr.nr_regions
      then (no_space, record s { env = free_region r s.env })
      else (
        done,
        record s {
          mgr = rebuild g.sort memory (record s.mgr {
            regions = s.mgr.regions ++ r ∷ [];
            nr_regions = add64 s.mgr.nr_regions 1;
            nr_pages_mapped = add64 s.mgr.nr_pages_mapped (length r.pages);
          });
        },
      )

  -- With the pages mapped, or as many as could be.
  unfoldable pub with_pages : Region → Bool → Mgr → Bool × List MapEntry × E → Outcome × Sys E
  unfolding add_region
  with_pages r memory m (true, ps, env) =
      add_region (record r { pages = ps }) memory (record { mgr = m; env = env })
  with_pages r memory m (false, ps, env) = (
    no_memory,
    record { mgr = m; env = g.kfree (g.kfree (release_pages r (unmap_pages ps env))) },
  )

  -- With the array for the pages allocated or not.
  unfoldable pub with_array : Region → Bool → Mgr → List ℕ → Bool × E → Outcome × Sys E
  unfolding with_pages
  with_array r memory m pas (false, env) =
      (no_memory, record { mgr = m; env = g.kfree (release_pages r env) })
  with_array r memory m pas (true, env) = with_pages r memory m (map_pages pas [] env)

  unfoldable pub with_table : Region → Bool → Mgr → Option PageTable × E → Outcome × Sys E
  unfolding with_array
  with_table r memory m (none, env) = (p2p_error, record { mgr = m; env = g.kfree env })
  with_table r memory m (some t, env) =
      if not t.compatible
      then (invalid, record { mgr = m; env = g.kfree (g.put_pages env r.gpu_va) })
      else if not t.is_64k
      then (invalid, record { mgr = m; env = g.kfree (g.put_pages env r.gpu_va) })
      else with_array (record r { has_table = true }) memory m t.pages (g.kmalloc env)

  unfoldable pub with_region : ℕ → ℕ → Bool → Mgr → Bool × E → Outcome × Sys E
  unfolding with_table page_base page_align
  with_region gpu_va size memory m (false, env) = (no_memory, record { mgr = m; env = env })
  with_region gpu_va size memory m (true, env) =
      let va = page_base gpu_va in
      let aligned_size = sub64 (page_align (add64 gpu_va size)) va in
      with_table (new_region va aligned_size) memory m (g.get_pages env va aligned_size)

  -- `nvmev_gpu_mem_register`; the flag is whether the new lookup table can be allocated.
  unfoldable pub mem_register : ℕ → ℕ → Bool → Sys E → Outcome × Sys E
  unfolding with_region
  mem_register gpu_va size memory s = with_region gpu_va size memory s.mgr (g.kmalloc s.env)

  unfoldable pub drop_region : Bool → Sys E → Option (Region × List Region) → Outcome × Sys E
  unfolding free_region
  drop_region memory s none = (no_entry, s)
  drop_region memory s (some (r, rs)) = (
    done,
    record {
      mgr = rebuild g.sort memory (record s.mgr {
        regions = rs;
        nr_regions = sub64 s.mgr.nr_regions 1;
        nr_pages_mapped = sub64 s.mgr.nr_pages_mapped (length r.pages % 2 ^ 64);
      });
      env = free_region r s.env;
    },
  )

  -- `nvmev_gpu_mem_unregister`
  unfoldable pub mem_unregister : ℕ → Bool → Sys E → Outcome × Sys E
  unfolding drop_region take_region page_base
  mem_unregister gpu_va memory s =
      drop_region memory s (take_region (page_base gpu_va) s.mgr.regions)

-- `nvmev_gpu_free_callback`: the region is no longer valid, and its table is freed by us.
unfoldable pub reclaim_region : Region → Region
reclaim_region r = record r { valid = false; callback_fired = true }
