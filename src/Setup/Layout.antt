-- ===== src/Setup/Layout.antt =====
-- Where `nvmev_coalesce_init` of control/nvmevirt/coalesce.c puts the rings and the staging slots.
use gpu_fpga_dma.Base.{
  Bool, ltb, ◌||◌, not, if-both, ℕ, ◌+◌, ◌-◌, ◌*◌, ◌/◌, ◌^◌, ◌≤◌, ◌<◌, ◌≡◌, refl, ap, ◌∙◌, true,
  false, arith, ◌==◌, if◌then◌else◌,
}
use gpu_fpga_dma.Base.Words.{u32}
use gpu_fpga_dma.Base.Bits.{pow-add, one-le-pow}
use native.Mathlib.Nat.{pow-le-pow_right, mul-le-mul_right, add-mul}
use native.Mathlib.Decide.{dec_lt}
use gpu_fpga_dma.Setup.{
  mmap, Mapped, staging, descriptors, rings, invalid, Knobs, Geometry, geometry, header, ring_of,
  slot_at,
}
use gpu_fpga_dma.Setup.Power.{Rounded, roundup-Rounded}

-- The ring depth asked for, which is 1024 where the parameter is zero.
abbrev pub asked_ring : Knobs → ℕ
asked_ring c = if c.ring == 0 then 1024 else c.ring

small_power : (n p : ℕ) → Rounded n p → n ≤ 2 ^ 26 → p ≤ 2 ^ 26
small_power n p v le = omega (
  arith,
  v.power,
  pow-le-pow_right {n = 2} (omega arith) {i = v.exponent} {j = 26} (v.least 26 le),
)

pub ring_of-small : (c : Knobs) → c.ring ≤ 2 ^ 26 → (0 < ring_of c) × (ring_of c ≤ 2 ^ 26)
unfolding ring_of
ring_of-small c le =
    let asked : asked_ring c ≤ 2 ^ 26 = ground arith in
    let v = roundup-Rounded (asked_ring c) (omega (arith, asked)) in
    let small = small_power (asked_ring c) _ v asked in
    (omega (arith, small, v.power, one-le-pow v.exponent), omega (arith, small))

-- From 2^27 on a power of two is a multiple of it.
big_power : (n p : ℕ) → Rounded n p → 2 ^ 26 < n → (m : ℕ) × (p ≡ 2 ^ 27 * m)
big_power n p v lt =
    let many : 27 ≤ v.exponent = elim (dec_lt v.exponent 27) [
      | yes h ↦ absurd (
          omega (
            arith,
            v.power,
            v.enough,
            pow-le-pow_right {n = 2} (omega arith) {i = v.exponent} {j = 26} (omega (arith, h)),
          ))
      | no h ↦ omega (arith, h)
    ] in
    (
      2 ^ (v.exponent - 27),
      v.power ∙ ap (λ k. 2 ^ k) (omega (arith, many)) ∙ pow-add (v.exponent - 27) 27,
    )

-- With `coalesce_ring` from 2^26 + 1 to 2^31 the size of the request array wraps to zero, and the
-- completions of a shard start where its requests do.
pub ring_overlaps :
    (c : Knobs) (k : ℕ)
    → 2 ^ 26 < c.ring
    → c.ring ≤ 2 ^ 31
    → (header (geometry c) k).cq_off ≡ (header (geometry c) k).rq_off
unfolding geometry header ring_of
ring_overlaps c k low high =
    let same : asked_ring c ≡ c.ring = ground arith in
    let v = roundup-Rounded (asked_ring c) (omega (arith, same)) in
    let (m, e) = big_power (asked_ring c) _ v (omega (arith, same)) in
    let none_left : u32 (ring_of c * 32) ≡ 0 = rw e (omega arith) in omega (arith, none_left)

slot_number :
    (c : Knobs) (k i : ℕ) → slot_at (geometry c) k i ≡ (k * (geometry c).pend_cap + i) * c.page
unfolding slot_at geometry
slot_number c k i = grind arith

after : (a b n : ℕ) → a < b → a * n + n ≤ b * n
after a b n lt = omega (arith, mul-le-mul_right {m = a + 1} {n = b} n (omega arith), add-mul a 1 n)

total_staging :
    (c : Knobs)
    → (geometry c).staging_bytes ≡ (geometry c).n_shards * (geometry c).pend_cap * c.page
unfolding geometry
total_staging c = refl

-- Two slots of any shards are staged apart: the earlier one ends before the later one starts, and
-- every slot lies within the staging region.
pub staging_apart :
    (c : Knobs) (k l i j : ℕ)
    → k ≤ l
    → l < (geometry c).n_shards
    → i < (geometry c).pend_cap
    → j < (geometry c).pend_cap
    → (k ≡ l → i < j)
    → (slot_at (geometry c) k i + c.page ≤ slot_at (geometry c) l j)
      × (slot_at (geometry c) l j + c.page ≤ (geometry c).staging_bytes)
staging_apart c k l i j le hl hi hj later =
    let g = geometry c in
    let cap = g.pend_cap in
    let order : k * cap + i < l * cap + j = elim (dec_lt k l) [
      | yes lt ↦ omega (arith, after k l cap lt, hi)
      | no ge ↦ let e : k ≡ l = omega (arith, ge) in omega (arith, ap (λ n. n * cap) e, later e)
    ] in
    let inside : l * cap + j < g.n_shards * cap = omega (arith, after l g.n_shards cap hl, hj) in
    (
      omega (
        arith,
        after (k * cap + i) (l * cap + j) c.page order,
        slot_number c k i,
        slot_number c l j,
      ),
      omega (
        arith,
        after (l * cap + j) (g.n_shards * cap) c.page inside,
        slot_number c l j,
        total_staging c,
      ),
    )

-- Whether what `co_mmap` maps is allocated and as large as asked for.
abbrev Fits : Geometry → Bool → Bool → ℕ → Mapped → Type 0
Fits g has_staging has_desc sz staging = (has_staging ≡ true) × (sz ≤ g.staging_bytes)
Fits g has_staging has_desc sz descriptors = (has_desc ≡ true) × (sz ≤ g.desc_bytes)
Fits g has_staging has_desc sz rings = sz ≤ g.region_bytes
Fits g has_staging has_desc sz invalid = Unit

-- At every offset `co_mmap` maps no more than the region that it chooses holds.
pub mmap-Fits :
    (g : Geometry) (has_staging has_desc : Bool) (pgoff sz : ℕ)
    → Fits g has_staging has_desc sz (mmap g has_staging has_desc pgoff sz)
unfolding mmap
mmap-Fits g a b pgoff sz =
    if-both (Fits g a b sz) (pgoff == 2 ^ 34 / 4096) _ _
      (λ _. sized a g.staging_bytes (Fits g a b sz) staging (λ e le. (e, le)) tt)
      (λ _.
        if-both (Fits g a b sz) (pgoff == 2 * 2 ^ 34 / 4096) _ _
          (λ _. sized b g.desc_bytes (Fits g a b sz) descriptors (λ e le. (e, le)) tt)
          (λ _.
            if-both (Fits g a b sz) (ltb g.region_bytes sz) invalid rings (λ _. tt)
              (λ e. ground arith)))
  where
    sized :
        (there : Bool) (bytes : ℕ) (P : Mapped → Type 0) (m : Mapped)
        → (there ≡ true → sz ≤ bytes → P m)
        → P invalid
        → P (if not there || ltb bytes sz then invalid else m)
    sized false bytes P m fit bad = bad
    sized true bytes P m fit bad =
        if-both P (ltb bytes sz) invalid m (λ _. bad) (λ e. fit refl (ground arith))
