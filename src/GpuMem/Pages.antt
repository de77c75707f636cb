-- ===== src/GpuMem/Pages.antt =====
-- `nvmev_gpu_region_pages` of control/nvmevirt/gpu_mem.c: the GPU pages of a range of a region.
use gpu_fpga_dma.Base.{
  ℕ, zero, suc, ◌+◌, ◌-◌, ◌*◌, ◌/◌, ◌%◌, ◌^◌, ◌≤◌, ◌<◌, ◌≡◌, Bool, true, not, ◌&&◌, ◌||◌, Option,
  none, some, List, [], ◌∷◌, ltb, leb, if◌then◌else◌, length, arith, min, ap, ◌∙◌,
}
use gpu_fpga_dma.Base.Words.{add32, sub32, add64, sub64, u32}
use gpu_fpga_dma.Base.Bits.{bit_and_mask}
use gpu_fpga_dma.GpuMem.{MapEntry, Region, entry_at, gpu_page_size}
use gpu_fpga_dma.GpuMem.Register.{page_base}

-- `start_pg`
unfoldable pub start_page : Region → ℕ → ℕ
unfolding page_base
start_page r va = u32 (sub64 (page_base va) r.gpu_va / gpu_page_size)

-- `npg` before it is clipped: DIV_ROUND_UP of the range from the start of its first page.
unfoldable pub page_span : ℕ → ℕ → ℕ
unfolding page_base
page_span va len =
    u32 (add64 (add64 (sub64 va (page_base va)) len) (gpu_page_size - 1) / gpu_page_size)

-- Clipped to the region, then to the caller's array.
unfoldable pub clip_span : ℕ → ℕ → ℕ → ℕ → ℕ
clip_span start npg nr max =
    let fit = if ltb nr (add32 start npg) then sub32 nr start else npg in
    if ltb max fit then max else fit

-- Whether a region is the one that the search stops at.
unfoldable pub covers : Region → ℕ → Bool
covers r va = r.valid && not (ltb va r.gpu_va || leb (add64 r.gpu_va r.size) va)

-- The addresses `out[0]` to `out[n - 1]`.
unfoldable pub copy_pages : List MapEntry → ℕ → ℕ → List ℕ
copy_pages ps i zero = []
copy_pages ps i (suc n) = (entry_at ps i).phys_addr ∷ copy_pages ps (i + 1) n

unfoldable pub pages_in : Region → ℕ → ℕ → ℕ → List ℕ
unfolding start_page page_span clip_span copy_pages
pages_in r va len max =
    let start = start_page r va in
    copy_pages r.pages start (clip_span start (page_span va len) (length r.pages) max)

-- `none` is -ENOENT.
unfoldable pub region_pages : List Region → ℕ → ℕ → ℕ → Option (List ℕ)
unfolding covers pages_in
region_pages [] va len max = none
region_pages (r ∷ rs) va len max =
    if covers r va then some (pages_in r va len max) else region_pages rs va len max

page_base_lem : (va : ℕ) → page_base va ≡ va - va % 2 ^ 16
unfolding page_base
page_base_lem va = omega (arith, bit_and_mask 16 va)

-- A region at an aligned address, with a page for each 64 KB of its size, below 2 ^ 47.
pub record IsRegion (r : Region) : Type 0 where
  pub aligned : r.gpu_va % gpu_page_size ≡ 0
  pub pages : r.size ≡ length r.pages * gpu_page_size
  pub below : r.gpu_va + r.size < 2 ^ 47

pub covers_lem :
    (r : Region) (va : ℕ)
    → IsRegion r
    → covers r va ≡ true
    → (r.gpu_va ≤ va) × (va < r.gpu_va + r.size)
unfolding covers
covers_lem r va v c = ground arith

pub start_page_lem :
    (r : Region) (va : ℕ)
    → IsRegion r
    → covers r va ≡ true
    → start_page r va ≡ (va - r.gpu_va) / gpu_page_size
unfolding start_page
start_page_lem r va v c = omega (arith, v, covers_lem r va v c, page_base_lem va)

page_span_lem :
    (va len : ℕ)
    → va < 2 ^ 48
    → len < 2 ^ 46
    → page_span va len ≡ (va % gpu_page_size + len + gpu_page_size - 1) / gpu_page_size
unfolding page_span
page_span_lem va len h small = omega (arith, page_base_lem va)

clip_span_lem :
    (start npg nr max : ℕ)
    → start < nr
    → nr < 2 ^ 32
    → start + npg < 2 ^ 32
    → clip_span start npg nr max ≡ min (min npg (nr - start)) max
unfolding clip_span
clip_span_lem start npg nr max lt small fits = ground arith

-- For a range of less than 2 ^ 46 bytes that starts in the region, the first page read is the one of
-- the first byte, and the pages read are as many as the range touches, as the region has from there
-- on, or as the caller asked for, whichever is least; so none lies past the region.
pub region_span :
    (r : Region) (va len max : ℕ)
    → IsRegion r
    → covers r va ≡ true
    → len < 2 ^ 46
    → (start_page r va ≡ (va - r.gpu_va) / gpu_page_size)
      × (start_page r va < length r.pages)
      × (clip_span (start_page r va) (page_span va len) (length r.pages) max
          ≡ min
              (min
                ((va % gpu_page_size + len + gpu_page_size - 1) / gpu_page_size)
                (length r.pages - start_page r va))
              max)
region_span r va len max v c small =
    let inside = covers_lem r va v c in
    let start = start_page_lem r va v c in
    let span = page_span_lem va len (omega (arith, v, inside)) small in
    (
      start,
      omega (arith, start, inside, v),
      clip_span_lem (start_page r va) (page_span va len) (length r.pages) max
            (omega (arith, start, inside, v)) (omega (arith, v))
            (omega (arith, start, span, inside, v))
          ∙ ap (λ n. min (min n (length r.pages - start_page r va)) max) span,
    )

clip_span_wraps :
    (start nr max : ℕ)
    → 0 < start
    → start < 2 ^ 32
    → clip_span start (2 ^ 32 - start) nr max ≡ min (2 ^ 32 - start) max
unfolding clip_span
clip_span_wraps start nr max pos small = ground arith

-- The length for which `start_pg + npg` wraps to zero, from an aligned address on.
unfoldable pub wrapping_len : ℕ → ℕ
wrapping_len start = (2 ^ 32 - start) * gpu_page_size

span_wraps :
    (va start : ℕ)
    → va % gpu_page_size ≡ 0
    → va < 2 ^ 47
    → 0 < start
    → start < 2 ^ 31
    → page_span va (wrapping_len start) ≡ 2 ^ 32 - start
unfolding page_span wrapping_len
span_wraps va start a w pos small = omega (arith, page_base_lem va)

-- With that length, from a page of the region other than its first, the pages are not clipped to the
-- region: a caller that asks for more than the region has left gets entries past the region's array.
pub region_overread :
    (r : Region) (va max : ℕ)
    → IsRegion r
    → covers r va ≡ true
    → va % gpu_page_size ≡ 0
    → r.gpu_va + gpu_page_size ≤ va
    → max ≤ 2 ^ 20
    → length r.pages < start_page r va + max
    → length r.pages
      < start_page r va
        + clip_span
            (start_page r va)
            (page_span va (wrapping_len (start_page r va)))
            (length r.pages)
            max
region_overread r va max v c a later few more =
    let inside = covers_lem r va v c in
    let start = start_page_lem r va v c in
    let s = start_page r va in
    let low : (0 < s) × (s < 2 ^ 31) = omega (arith, start, v, inside) in
    let span = span_wraps va s a (omega (arith, v, inside)) low.0 low.1 in
    let clip = clip_span_wraps s (length r.pages) max low.0 (omega (arith, low)) in
    omega (arith, ap (λ n. clip_span s n (length r.pages) max) span, clip, low)
