-- ===== src/GpuMem/Search.antt =====
-- `__bsearch_page` of control/nvmevirt/gpu_mem.c finds the page of an address.
use gpu_fpga_dma.Base.{
  ℕ, zero, suc, ◌+◌, ◌-◌, ◌/◌, ◌^◌, ◌≤◌, ◌<◌, Option, none, some, List, ltb, leb, length, arith,
  Bool-cases, inl, inr, ltb→lt, leb→le,
}
use gpu_fpga_dma.Base.Words.{add64}
use gpu_fpga_dma.GpuMem.{MapEntry, entry_at, gpu_page_size, bsearch_from, bsearch_page}

-- Ascending addresses of pages that end below the top of the address space.
pub record IsSorted (t : List MapEntry) : Type 0 where
  pub ascends :
      (i j : ℕ) → i ≤ j → j < length t → (entry_at t i).phys_addr ≤ (entry_at t j).phys_addr
  pub fits : (i : ℕ) → i < length t → (entry_at t i).phys_addr + gpu_page_size < 2 ^ 64

-- An entry's page holds an address.
abbrev pub Holds : List MapEntry → ℕ → ℕ → Type 0
Holds t addr i =
    (i < length t)
    × ((entry_at t i).phys_addr ≤ addr)
    × (addr < (entry_at t i).phys_addr + gpu_page_size)

-- A search for an address has found an entry that holds it, or there is none.
abbrev pub Finds : List MapEntry → ℕ → Option ℕ → Type 0
Finds t addr (some i) = Holds t addr i
Finds t addr none = (i : ℕ) → ¬ (Holds t addr i)

module _ (t : List MapEntry) (v : IsSorted t) (addr : ℕ) where
  pub bsearch_from-Finds :
      (f lo top : ℕ)
      → top ≤ length t
      → top < lo + f
      → ((i : ℕ) → i < lo → i < length t → (entry_at t i).phys_addr + gpu_page_size ≤ addr)
      → ((i : ℕ) → top ≤ i → i < length t → addr < (entry_at t i).phys_addr)
      → Finds t addr (bsearch_from f t addr lo top)
  unfolding bsearch_from
  bsearch_from-Finds zero lo top le fuel below above = λ i h. elim (Bool-cases (ltb i lo)) [
    | inl lt ↦ omega (arith, below i (ltb→lt i lo lt) h.0, h)
    | inr ge ↦ omega (arith, above i (ground arith) h.0, h)
  ]
  bsearch_from-Finds (suc f) lo top le fuel below above = elim (Bool-cases (ltb lo top)) [
    | inr over ↦
        rw (over, bsearch_from)
          (λ i h. elim (Bool-cases (ltb i lo)) [
            | inl lt ↦ omega (arith, below i (ltb→lt i lo lt) h.0, h)
            | inr ge ↦ omega (arith, above i (ground arith) h.0, h)
          ])
    | inl more ↦
        let mid : ℕ = lo + (top - 1 - lo) / 2 in
        let start : ℕ = (entry_at t mid).phys_addr in
        let inside : (lo ≤ mid) × (mid < top) = ground arith in
        let fits = v.fits mid (omega (arith, inside)) in
        elim (Bool-cases (ltb addr start)) [
          | inl left ↦
              rw (more, left, bsearch_from)
                (bsearch_from-Finds f lo mid (omega (arith, inside)) (omega (arith, inside)) below
                  (λ i ge lt. omega (arith, ltb→lt _ _ left, v.ascends mid i ge lt)))
          | inr not_left ↦ elim (Bool-cases (leb (add64 start gpu_page_size) addr)) [
            | inl right ↦
                rw (more, not_left, right, bsearch_from)
                  (bsearch_from-Finds f (mid + 1) top le (omega (arith, inside))
                    (λ i lt in_t. omega (
                      arith,
                      fits,
                      leb→le _ _ right,
                      v.ascends i mid (omega arith) (omega (arith, inside)),
                    ))
                    above)
            | inr here ↦
                rw (more, not_left, here, bsearch_from)
                  (omega (arith, inside), ground arith, ground arith)
          ]
        ]
  ]

  -- The search of a sorted table returns an entry whose page holds the address, or nothing if no
  -- entry's page does.
  pub bsearch_page-Finds : Finds t addr (bsearch_page t addr)
  unfolding bsearch_page
  bsearch_page-Finds =
      bsearch_from-Finds (suc (length t)) 0 (length t) (omega arith) (omega arith)
        (λ i lt in_t. absurd (omega arith)) (λ i ge lt. absurd (omega arith))
