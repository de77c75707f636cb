-- ===== src/GpuMem/Register/Leaks.antt =====
-- What registering and unregistering GPU memory holds on to: control/nvmevirt/gpu_mem.c.
use gpu_fpga_dma.Base.{
  ℕ, ◌+◌, ◌-◌, ◌≡◌, refl, ap, Bool, true, false, not, Option, none, some, List, [], ◌∷◌, ◌++◌, leb,
  if◌then◌else◌, arith, if-both, inl, inr, Option-cases, ◌<◌,
}
use gpu_fpga_dma.Base.Words.{add64, sub64}
use gpu_fpga_dma.GpuMem.{MapEntry, Region, Mgr, gpu_page_size, gpu_max_regions, rebuild}
use gpu_fpga_dma.GpuMem.Register.{
  PageTable, Gpu, Outcome, done, no_memory, p2p_error, invalid, no_space, no_entry, Sys, unmap_one,
  unmap_pages, release_pages, free_region, map_pages, add_region, with_pages, with_array,
  with_table, with_region, mem_register, take_region, page_base, page_align, new_region,
}

abbrev pub bit : Bool → ℕ
bit b = if b then 1 else 0

abbrev pub there {ℓ} : {A : Type ℓ} → Option A → ℕ
there none = 0
there (some a) = 1

-- How many of the pages are mapped.
abbrev pub mapped : List MapEntry → ℕ
mapped [] = 0
mapped (p ∷ ps) = there p.kaddr + mapped ps

mapped-append : (ps qs : List MapEntry) → mapped (ps ++ qs) ≡ mapped ps + mapped qs
mapped-append [] qs = omega arith
mapped-append (p ∷ ps) qs = omega (arith, mapped-append ps qs)

-- What a region holds: itself, its array of pages, its page table and its mappings.
abbrev pub held : Region → ℕ
held r = 2 + bit r.has_table + mapped r.pages

-- The number of live resources, as the two drivers change it.
pub record Balanced {E : Type 0} (g : Gpu E) (live : E → ℕ) : Type 0 where
  pub get :
      (env : E) (va n : ℕ)
      → live (g.get_pages env va n).1 ≡ live env + there (g.get_pages env va n).0
  pub put : (env : E) (va : ℕ) → live (g.put_pages env va) ≡ live env - 1
  pub free : (env : E) → live (g.free_table env) ≡ live env - 1
  pub map :
      (env : E) (pa n : ℕ)
      → live (g.ioremap_wc env pa n).1 ≡ live env + there (g.ioremap_wc env pa n).0
  pub unmap : (env : E) (k : ℕ) → live (g.iounmap env k) ≡ live env - 1
  pub kmalloc : (env : E) → live (g.kmalloc env).1 ≡ live env + bit (g.kmalloc env).0
  pub kfree : (env : E) → live (g.kfree env) ≡ live env - 1

module _ {E : Type 0} (g : Gpu E) (live : E → ℕ) (law : Balanced g live) where
  pub live-unmap_one : (k : Option ℕ) (env : E) → live (unmap_one g k env) ≡ live env - there k
  unfolding unmap_one
  live-unmap_one none env = omega arith
  live-unmap_one (some a) env = law.unmap env a

  unmap_live : (ps : List MapEntry) (env : E) → live (unmap_pages g ps env) ≡ live env - mapped ps
  unfolding unmap_pages
  unmap_live [] env = omega arith
  unmap_live (p ∷ ps) env =
      omega (arith, unmap_live ps (unmap_one g p.kaddr env), live-unmap_one p.kaddr env)

  release_live : (r : Region) (env : E) → live (release_pages g r env) ≡ live env - bit r.has_table
  unfolding release_pages
  release_live r env = ground (arith, law.put env r.gpu_va, law.free env)

  pub live-free_region : (r : Region) (env : E) → live (free_region g r env) ≡ live env - held r
  unfolding free_region
  live-free_region r env = omega (
    arith,
    law.kfree (g.kfree (release_pages g r (unmap_pages g r.pages env))),
    law.kfree (release_pages g r (unmap_pages g r.pages env)),
    release_live r (unmap_pages g r.pages env),
    unmap_live r.pages env,
  )

  -- After the mapping loop the live resources have grown by the pages that it mapped.
  abbrev Maps : List MapEntry → E → Bool × List MapEntry × E → Type 0
  Maps acc env r = live r.2 + mapped acc ≡ live env + mapped r.1

  map_pages-Maps :
      (pas : List ℕ) (acc : List MapEntry) (env : E) → Maps acc env (map_pages g pas acc env)
  unfolding map_pages
  map_pages-Maps [] acc env = refl
  map_pages-Maps (pa ∷ pas) acc env =
      let k = g.ioremap_wc env pa gpu_page_size in
      let law_here = law.map env pa gpu_page_size in
      elim (Option-cases k.0) [
        | inl e ↦ rw (e, map_pages) (omega (arith, law_here, ap there e))
        | inr (a, e) ↦
            let more = acc ++ record { phys_addr = pa; kaddr = some a } ∷ [] in
            rw (e, map_pages)
              (omega (
                arith,
                law_here,
                ap there e,
                map_pages-Maps pas more k.1,
                mapped-append acc (record { phys_addr = pa; kaddr = some a } ∷ []),
              ))
      ]

  -- Registration keeps the manager and the live resources, or adds a region that holds what is new.
  abbrev pub Leaves : Sys E → Outcome × Sys E → Type 0
  Leaves s (done, t) =
      (r : Region) × (t.mgr.regions ≡ s.mgr.regions ++ r ∷ [])
      × (live t.env ≡ live s.env + held r)
      × (s.mgr.nr_regions < gpu_max_regions)
  Leaves s (no_memory, t) = (t.mgr ≡ s.mgr) × (live t.env ≡ live s.env)
  Leaves s (p2p_error, t) = (t.mgr ≡ s.mgr) × (live t.env ≡ live s.env)
  Leaves s (invalid, t) = (t.mgr ≡ s.mgr) × (live t.env ≡ live s.env)
  Leaves s (no_space, t) = (t.mgr ≡ s.mgr) × (live t.env ≡ live s.env)
  Leaves s (no_entry, t) = (t.mgr ≡ s.mgr) × (live t.env ≡ live s.env)

  rebuild_regions : (memory : Bool) (m : Mgr) → (rebuild g.sort memory m).regions ≡ m.regions
  unfolding rebuild
  rebuild_regions memory m = ground arith

  add_region-Leaves :
      (r : Region) (memory : Bool) (s : Sys E) (env : E)
      → live env ≡ live s.env + held r
      → Leaves s (add_region g r memory (record { mgr = s.mgr; env = env }))
  unfolding add_region
  add_region-Leaves r memory s env e =
      if-both (Leaves s) (leb gpu_max_regions s.mgr.nr_regions) _ _
        (λ _. (refl, omega (arith, e, live-free_region r env)))
        (λ room. (r, rebuild_regions memory _, e, ground arith))

  with_pages-Leaves :
      (r : Region) (memory : Bool) (s : Sys E) (env : E) (o : Bool × List MapEntry × E)
      → r.has_table ≡ true
      → live env ≡ live s.env + 3
      → Maps [] env o
      → Leaves s (with_pages g r memory s.mgr o)
  unfolding with_pages
  with_pages-Leaves r memory s env (true, ps, env') t e maps =
      add_region-Leaves (record r { pages = ps }) memory s env' (omega (arith, e, maps, ap bit t))
  with_pages-Leaves r memory s env (false, ps, env') t e maps = (
    refl,
    omega (
      arith,
      e,
      maps,
      ap bit t,
      law.kfree (g.kfree (release_pages g r (unmap_pages g ps env'))),
      law.kfree (release_pages g r (unmap_pages g ps env')),
      release_live r (unmap_pages g ps env'),
      unmap_live ps env',
    ),
  )

  with_array-Leaves :
      (r : Region) (memory : Bool) (s : Sys E) (pas : List ℕ) (o : Bool × E)
      → r.has_table ≡ true
      → live o.1 ≡ live s.env + 2 + bit o.0
      → Leaves s (with_array g r memory s.mgr pas o)
  unfolding with_array
  with_array-Leaves r memory s pas (false, env) t e =
      (refl, omega (arith, e, ap bit t, law.kfree (release_pages g r env), release_live r env))
  with_array-Leaves r memory s pas (true, env) t e =
      with_pages-Leaves r memory s env (map_pages g pas [] env) t (omega (arith, e))
        (map_pages-Maps pas [] env)

  with_table-Leaves :
      (r : Region) (memory : Bool) (s : Sys E) (o : Option PageTable × E)
      → live o.1 ≡ live s.env + 1 + there o.0
      → Leaves s (with_table g r memory s.mgr o)
  unfolding with_table
  with_table-Leaves r memory s (none, env) e = (refl, omega (arith, e, law.kfree env))
  with_table-Leaves r memory s (some t, env) e =
      if-both (Leaves s) (not t.compatible) _ _ (λ _. put_back)
        (λ _.
          if-both (Leaves s) (not t.is_64k) _ _ (λ _. put_back)
            (λ _.
              with_array-Leaves (record r { has_table = true }) memory s t.pages (g.kmalloc env)
                refl (omega (arith, e, law.kmalloc env))))
    where
      put_back : (s.mgr ≡ s.mgr) × (live (g.kfree (g.put_pages env r.gpu_va)) ≡ live s.env)
      put_back =
          (refl, omega (arith, e, law.kfree (g.put_pages env r.gpu_va), law.put env r.gpu_va))

  with_region-Leaves :
      (gpu_va size : ℕ) (memory : Bool) (s : Sys E) (o : Bool × E)
      → live o.1 ≡ live s.env + bit o.0
      → Leaves s (with_region g gpu_va size memory s.mgr o)
  unfolding with_region
  with_region-Leaves gpu_va size memory s (false, env) e = (refl, omega (arith, e))
  with_region-Leaves gpu_va size memory s (true, env) e =
      let va = page_base gpu_va in
      let n = sub64 (page_align (add64 gpu_va size)) va in
      with_table-Leaves (new_region va n) memory s (g.get_pages env va n)
        (omega (arith, e, law.get env va n))

  -- A registration that fails, at whichever of its steps, leaves the manager as it was and no
  -- resource of the kernel or of the NVIDIA driver behind; one that succeeds appends one region, of
  -- which there were fewer than 64, and holds on to what that region records: itself, its array, its
  -- page table and its mapped pages.
  pub mem_register-Leaves :
      (gpu_va size : ℕ) (memory : Bool) (s : Sys E) → Leaves s (mem_register g gpu_va size memory s)
  unfolding mem_register
  mem_register-Leaves gpu_va size memory s =
      with_region-Leaves gpu_va size memory s (g.kmalloc s.env) (law.kmalloc s.env)

  -- The outcomes of unregistering the region at an address.
  abbrev pub Frees : ℕ → Sys E → Outcome × Sys E → Type 0
  Frees va s (no_entry, t) = (t ≡ s) × (take_region va s.mgr.regions ≡ none)
  Frees va s (done, t) =
      (r : Region) × (rs : List Region) × (take_region va s.mgr.regions ≡ some (r, rs))
      × (t.mgr.regions ≡ rs)
      × (live t.env ≡ live s.env - held r)
  Frees va s (no_memory, t) = ⊥
  Frees va s (p2p_error, t) = ⊥
  Frees va s (invalid, t) = ⊥
  Frees va s (no_space, t) = ⊥
