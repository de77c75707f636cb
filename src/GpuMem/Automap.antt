-- ===== src/GpuMem/Automap.antt =====
-- The cache of 256 MB mappings: `nvmev_gpu_auto_map` and `__automap_cleanup` of
-- control/nvmevirt/gpu_mem.c. The first scan takes no lock, so it sees the cache as it was.
use gpu_fpga_dma.Base.{
  ℕ, zero, suc, ◌+◌, ◌-◌, ◌/◌, ◌%◌, ◌^◌, ◌≡◌, refl, ap, subst, ◌∙◌, Option, none, some, List, [],
  ◌∷◌, ◌++◌, leb, ◌==◌, if◌then◌else◌, length, take, arith, Option-cases, inl, inr, ==_refl,
  if-both,
}
use gpu_fpga_dma.Base.Words.{add64, and_not}
use gpu_fpga_dma.Base.Bits.{bit_and_mask}
use gpu_fpga_dma.GpuMem.Register.{Gpu, unmap_one}

abbrev pub automap_max : ℕ
automap_max = 64

abbrev pub automap_region : ℕ
automap_region = 2 ^ 28

-- `struct nvmev_automap_entry`
pub record AutomapEntry : Type 0 where
  pub phys_base : ℕ
  pub kaddr : Option ℕ

-- `automap_cache` with `automap_count` entries, and `automap_hits`, with the world outside.
pub record Cache (E : Type 0) : Type 0 where
  pub entries : List AutomapEntry
  pub hits : ℕ
  pub env : E

unfoldable pub region_base : ℕ → ℕ
region_base addr = and_not addr (automap_region - 1)

-- An entry's mapping, or what the scan finds later.
unfoldable pub kaddr_or : Option ℕ → Option ℕ → Option ℕ
kaddr_or none later = later
kaddr_or (some k) later = some k

-- The mapping of the first entry that has this base and is mapped.
unfoldable pub scan : ℕ → List AutomapEntry → Option ℕ
unfolding kaddr_or
scan base [] = none
scan base (e ∷ es) = if e.phys_base == base then kaddr_or e.kaddr (scan base es) else scan base es

module _ {E : Type 0} (g : Gpu E) where
  unfoldable pub add_mapping : ℕ → ℕ → Cache E → Option ℕ × E → Option ℕ × Cache E
  add_mapping base offset c (none, env) = (none, record c { env = env })
  add_mapping base offset c (some k, env) = (
    some (k + offset),
    record c { entries = c.entries ++ record { phys_base = base; kaddr = some k } ∷ []; env = env },
  )

  -- After the scan under the mutex.
  unfoldable pub locked : ℕ → ℕ → Cache E → Option ℕ → Option ℕ × Cache E
  unfolding add_mapping
  locked base offset c (some k) = (some (k + offset), c)
  locked base offset c none =
      if leb automap_max (length c.entries)
      then (none, c)
      else add_mapping base offset c (g.ioremap_wc c.env base automap_region)

  -- After the scan of the first entries, without the mutex.
  unfoldable pub unlocked : ℕ → ℕ → Cache E → Option ℕ → Option ℕ × Cache E
  unfolding locked
  unlocked base offset c (some k) = (some (k + offset), record c { hits = add64 c.hits 1 })
  unlocked base offset c none = locked base offset c (scan base c.entries)

  -- `seen` is the count that the first scan reads.
  unfoldable pub auto_map : ℕ → Cache E → ℕ → Option ℕ × Cache E
  unfolding unlocked region_base
  auto_map seen c addr =
      let base = region_base addr in unlocked base (addr - base) c (scan base (take seen c.entries))

  unfoldable pub unmap_entries : List AutomapEntry → E → E
  unmap_entries [] env = env
  unmap_entries (e ∷ es) env = unmap_entries es (unmap_one g e.kaddr env)

  -- `__automap_cleanup`
  unfoldable pub automap_cleanup : Cache E → Cache E
  unfolding unmap_entries
  automap_cleanup c = record c { entries = []; env = unmap_entries c.entries c.env }

region_base_lem : (addr : ℕ) → region_base addr ≡ addr - addr % 2 ^ 28
unfolding region_base
region_base_lem addr = omega (arith, bit_and_mask 28 addr)

same_base : (a b : ℕ) → a / automap_region ≡ b / automap_region → region_base a ≡ region_base b
same_base a b e = omega (arith, region_base_lem a, region_base_lem b)

scan-take :
    (base n k : ℕ) (es : List AutomapEntry) → scan base (take n es) ≡ some k → scan base es ≡ some k
unfolding scan kaddr_or
scan-take base zero k es h = cc
scan-take base (suc n) k [] h = cc
scan-take base (suc n) k (e ∷ es) h = ground (arith, scan-take base n k es)

scan-snoc :
    (base k : ℕ) (es : List AutomapEntry)
    → scan base es ≡ none
    → scan base (es ++ record { phys_base = base; kaddr = some k } ∷ []) ≡ some k
unfolding scan kaddr_or
scan-snoc base k [] h = ground (arith, ==_refl base)
scan-snoc base k (e ∷ es) h = ground (arith, scan-snoc base k es)

module _ {E : Type 0} (g : Gpu E) where
  cached_hit :
      (seen base k offset : ℕ) (c : Cache E)
      → scan base c.entries ≡ some k
      → ((unlocked g base offset c (scan base (take seen c.entries))).0 ≡ some (k + offset))
        × ((unlocked g base offset c (scan base (take seen c.entries))).1.entries ≡ c.entries)
  unfolding unlocked locked
  cached_hit seen base k offset c h = elim (Option-cases (scan base (take seen c.entries))) [
    | inl miss ↦ rw (miss, h) (refl, refl)
    | inr (j, hit) ↦
        let same = scan-take base seen j c.entries hit in rw hit (ground (arith, same), refl)
  ]

  -- What a call that returns an address leaves in the cache.
  abbrev Leaves : ℕ → ℕ → Option ℕ × Cache E → Type 0
  Leaves base offset (none, c) = Unit {0}
  Leaves base offset (some a, c) = (k : ℕ) × (scan base c.entries ≡ some k) × (a ≡ k + offset)

  add_mapping-Leaves :
      (base offset : ℕ) (c : Cache E) (o : Option ℕ × E)
      → scan base c.entries ≡ none
      → Leaves base offset (add_mapping g base offset c o)
  unfolding add_mapping
  add_mapping-Leaves base offset c (none, env) h = tt
  add_mapping-Leaves base offset c (some k, env) h = (k, scan-snoc base k c.entries h, refl)

  locked-Leaves :
      (base offset : ℕ) (c : Cache E) (o : Option ℕ)
      → scan base c.entries ≡ o
      → Leaves base offset (locked g base offset c o)
  unfolding locked
  locked-Leaves base offset c (some k) h = (k, h, refl)
  locked-Leaves base offset c none h =
      if-both (Leaves base offset) (leb automap_max (length c.entries)) _ _ (λ _. tt)
        (λ _. add_mapping-Leaves base offset c _ h)

  unlocked-Leaves :
      (seen base offset : ℕ) (c : Cache E) (o : Option ℕ)
      → scan base (take seen c.entries) ≡ o
      → Leaves base offset (unlocked g base offset c o)
  unfolding unlocked
  unlocked-Leaves seen base offset c (some k) h = (k, scan-take base seen k c.entries h, refl)
  unlocked-Leaves seen base offset c none h = locked-Leaves base offset c (scan base c.entries) refl

  later_hit :
      (seen base offset offset' a : ℕ) (o : Option ℕ × Cache E)
      → Leaves base offset o
      → o.0 ≡ some a
      → ((unlocked g base offset' o.1 (scan base (take seen o.1.entries))).0
          ≡ some (a + offset' - offset))
        × ((unlocked g base offset' o.1 (scan base (take seen o.1.entries))).1.entries
            ≡ o.1.entries)
  later_hit seen base offset offset' a (none, c) l e = cc
  later_hit seen base offset offset' a (some b, c) (k, cached, eq) e =
      let hit = cached_hit seen base k offset' c cached in
      let same : b ≡ a = ground (arith, e) in (hit.0 ∙ ap some (omega (arith, eq, same)), hit.1)

  -- If `nvmev_gpu_auto_map` returns an address, then a later call for any address of that 256 MB
  -- region returns the corresponding address of the same mapping, however much of the cache its first
  -- scan sees, and adds no mapping.
  pub auto_map_again :
      (seen seen' addr addr' a : ℕ) (c : Cache E)
      → (auto_map g seen c addr).0 ≡ some a
      → addr / automap_region ≡ addr' / automap_region
      → ((auto_map g seen' (auto_map g seen c addr).1 addr').0
          ≡ some (a + addr' % automap_region - addr % automap_region))
        × ((auto_map g seen' (auto_map g seen c addr).1 addr').1.entries
            ≡ (auto_map g seen c addr).1.entries)
  unfolding auto_map
  auto_map_again seen seen' addr addr' a c e same =
      let base = region_base addr in
      let first = auto_map g seen c addr in
      let left = unlocked-Leaves seen base (addr - base) c (scan base (take seen c.entries)) refl in
      let hit = later_hit seen' base (addr - base) (addr' - base) a first left e in
      let offset : a + (addr' - base) - (addr - base)
          ≡ a + addr' % automap_region - addr % automap_region =
        omega (arith, region_base_lem addr, same) in
      subst
        (λ b.
          ((unlocked g b (addr' - b) first.1 (scan b (take seen' first.1.entries))).0
            ≡ some (a + addr' % automap_region - addr % automap_region))
          × ((unlocked g b (addr' - b) first.1 (scan b (take seen' first.1.entries))).1.entries
              ≡ first.1.entries))
        (same_base addr addr' same) (hit.0 ∙ ap some offset, hit.1)
