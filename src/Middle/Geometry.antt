-- ===== src/Middle/Geometry.antt =====
-- Where a row lies: the page tag and the offset of a request, and the device that a page is on.
use gpu_fpga_dma.Base.{
  ℕ, ◌+◌, ◌-◌, ◌*◌, ◌/◌, ◌%◌, ◌^◌, ◌≤◌, ◌<◌, ◌≡◌, ap, ◌∙◌, arith, if-both, true, ltb, ltb→lt,
}
use gpu_fpga_dma.Base.Bits.{bit_and_mask, one-le-pow}
use gpu_fpga_dma.Base.Words.{u32, mul64, sub64, sub32, ilog2, ilog2-pow}
use gpu_fpga_dma.Ring.Queue.{pow-le}
use native.Mathlib.Nat.{
  mod-add-div, mod-lt, mul-mod_right, mul-div_cancel_left, mul-le-mul_right, mul_comm, mod-eq_of_lt,
}
use gpu_fpga_dma.Middle.{Params}
use gpu_fpga_dma.Middle.Issue.{off_in_page, map_backend}
use gpu_fpga_dma.Middle.Bucket.{tag_of}

module _ (p : Params) (k : ℕ) (paged : p.page ≡ 2 ^ k) (narrow : k ≤ 16) where
  small : 2 ^ k ≤ 2 ^ 16
  small = pow-le k 16 narrow

  off_eq : (node : ℕ) → node * p.row < 2 ^ 64 → off_in_page p node ≡ node * p.row % 2 ^ k
  unfolding off_in_page
  off_eq node fits =
      let mask : sub32 p.page 1 ≡ 2 ^ k - 1 = omega (arith, paged, small, one-le-pow k) in
      let word : mul64 node p.row ≡ node * p.row = omega (arith, fits) in
      rw (mask, word, bit_and_mask k (node * p.row))
        (omega (arith, mod-lt (node * p.row) (one-le-pow k), small))

  tag_eq : (node : ℕ) → node * p.row < 2 ^ 64 → tag_of p node ≡ node * p.row - node * p.row % 2 ^ k
  unfolding tag_of
  tag_eq node fits =
      let mask : sub64 p.page 1 ≡ 2 ^ k - 1 = omega (arith, paged, small, one-le-pow k) in
      let word : mul64 node p.row ≡ node * p.row = omega (arith, fits) in
      rw (mask, word) (ap (λ x. node * p.row - x) (bit_and_mask k (node * p.row)))

  -- For a page of 2^k bytes, k at most 16, and a row offset below 2^64: the page tag is a multiple
  -- of the page, the offset in the page is below the page, and together they are the byte offset of
  -- the node's row.
  pub row_in_page :
      (node : ℕ)
      → node * p.row < 2 ^ 64
      → (tag_of p node % p.page ≡ 0)
        × (off_in_page p node < p.page)
        × (tag_of p node + off_in_page p node ≡ node * p.row)
  row_in_page node fits =
      let x = node * p.row in
      let split = mod-add-div x (2 ^ k) in
      let whole : x - x % 2 ^ k ≡ 2 ^ k * (x / 2 ^ k) = omega (arith, split) in
      (
        rw (tag_eq node fits, paged, whole) (mul-mod_right (2 ^ k) (x / 2 ^ k)),
        rw (off_eq node fits, paged) (mod-lt x (one-le-pow k)),
        omega (arith, tag_eq node fits, off_eq node fits, split),
      )

module _ (p : Params) (k : ℕ) (paged : p.page ≡ 2 ^ k) (word : k < 64) where
  abbrev Placed : ℕ → ℕ × ℕ → Type 0
  Placed tag out =
      (out.0 < p.n_dev) × (out.1 % 2 ^ k ≡ 0) × ((out.1 / 2 ^ k * p.n_dev + out.0) * 2 ^ k ≡ tag)

  div-below : (q d : ℕ) → 1 ≤ d → q / d ≤ q
  div-below q d h = omega (arith, mod-add-div q d, mul-le-mul_right (q / d) h)

  striped :
      (tag : ℕ)
      → tag < 2 ^ 64
      → tag % 2 ^ k ≡ 0
      → 1 < p.n_dev
      → p.n_dev < 2 ^ 32
      → Placed tag (u32 (tag / 2 ^ k % p.n_dev), mul64 (tag / 2 ^ k / p.n_dev) (2 ^ k))
  striped tag fits aligned many few =
      let q = tag / 2 ^ k in
      let b = q / p.n_dev in
      let low : q % p.n_dev < p.n_dev = mod-lt q (omega arith) in
      let page : 2 ^ k * q ≡ tag = omega (arith, mod-add-div tag (2 ^ k)) in
      let pair : q % p.n_dev + p.n_dev * b ≡ q = mod-add-div q p.n_dev in
      let keeps : b * 2 ^ k < 2 ^ 64 = omega (
        arith,
        mul-le-mul_right (2 ^ k) (div-below q p.n_dev (omega arith)),
        mul_comm (2 ^ k) q,
        page,
        fits,
      ) in
      let off : mul64 b (2 ^ k) ≡ 2 ^ k * b =
        omega (arith, mul_comm b (2 ^ k), mod-eq_of_lt keeps) in
      let dev : u32 (q % p.n_dev) ≡ q % p.n_dev = omega (arith, low, few) in
      rw (off, dev)
        (
          low,
          mul-mod_right (2 ^ k) b,
          rw (mul-div_cancel_left b (one-le-pow k)) (
              ap (λ a. a * 2 ^ k) (omega (arith, mul_comm b p.n_dev, pair))
              ∙ mul_comm q (2 ^ k)
              ∙ page),
        )

  -- Behind a real backend of 1 to 2^32 - 1 devices and a page of 2^k bytes, k below 64, an aligned
  -- offset below 2^64 goes to one of the devices, to an aligned offset there, and the device and
  -- that offset together give the global offset back: pages are dealt to the devices in turn, and
  -- no two of them share a place.
  pub map_backend_lem :
      (tag : ℕ)
      → tag < 2 ^ 64
      → tag % 2 ^ k ≡ 0
      → p.backend_is_real ≡ true
      → 1 ≤ p.n_dev
      → p.n_dev < 2 ^ 32
      → ((map_backend p tag).0 < p.n_dev)
        × ((map_backend p tag).1 % 2 ^ k ≡ 0)
        × (((map_backend p tag).1 / 2 ^ k * p.n_dev + (map_backend p tag).0) * 2 ^ k ≡ tag)
  unfolding map_backend
  map_backend_lem tag fits aligned real some few =
      let shift : ilog2 p.page ≡ k = ap ilog2 paged ∙ ilog2-pow k word in
      rw (real, shift)
        (if-both (Placed tag) (ltb 1 p.n_dev) _ _
          (λ e. striped tag fits aligned (ltb→lt 1 p.n_dev e) few)
          (λ e.
            let one : p.n_dev ≡ 1 = ground arith in
            (
              omega arith,
              aligned,
              ap (λ a. (tag / 2 ^ k * a + 0) * 2 ^ k) one
                  ∙ omega (arith, aligned, mul_comm (tag / 2 ^ k) (2 ^ k), mod-add-div tag (2 ^ k)),
            )))
