-- ===== src/Client/Address.antt =====
-- Where the client sends a row, `dst_phys_of` of src/isefs.c, against the pages that the module
-- reports for its buffer, `nvmev_gpu_region_pages` of control/nvmevirt/gpu_mem.c; and the shard of a row.
use gpu_fpga_dma.Base.{
  ℕ, zero, suc, ◌+◌, ◌-◌, ◌*◌, ◌/◌, ◌%◌, ◌^◌, ◌<◌, ◌≡◌, refl, sym, ap, ap₂, lt→not_leb, ◌∙◌, true,
  List, arith, length, get_or, bit_and,
}
use gpu_fpga_dma.Base.Words.{add64, mul64, u32, and_not}
use gpu_fpga_dma.Base.Bits.{bit_and_mask, one-le-pow}
use native.Mathlib.Nat.{div-add-mod, mod-lt}
use gpu_fpga_dma.GpuMem.{MapEntry, Region, entry_at, gpu_page_size}
use gpu_fpga_dma.GpuMem.Pages.{
  IsRegion, covers, covers_lem, start_page, start_page_lem, copy_pages, pages_in, clip_span,
  page_span,
}
use gpu_fpga_dma.Client.{Dst, page_phys, dst_phys_of, shard_of}

get_or-copy_pages :
    (ps : List MapEntry) (s n j : ℕ)
    → j < n
    → get_or (copy_pages ps s n) j 0 ≡ (entry_at ps (s + j)).phys_addr
unfolding copy_pages
get_or-copy_pages ps s zero j h = absurd (omega arith)
get_or-copy_pages ps s (suc n) zero h = ap (λ i. (entry_at ps i).phys_addr) (omega arith)
get_or-copy_pages ps s (suc n) (suc j) h =
    get_or-copy_pages ps (s + 1) n j (omega arith)
    ∙ ap (λ i. (entry_at ps i).phys_addr) {x = s + 1 + j} {y = s + suc j} (omega arith)

length-copy_pages : (ps : List MapEntry) (s n : ℕ) → length (copy_pages ps s n) ≡ n
unfolding copy_pages
length-copy_pages ps s zero = refl
length-copy_pages ps s (suc n) = ap suc (length-copy_pages ps (s + 1) n)

-- The table of a destination is what the module reports for its buffer.
pub record IsTableOf (r : Region) (d : Dst) : Type 0 where
  pub len : ℕ
  pub max : ℕ
  pub region : IsRegion r
  pub inside : covers r d.va ≡ true
  pub shift : d.page_shift ≡ 16
  pub pages : d.pg_phys ≡ pages_in r d.va len max

in_page :
    (pgs : List ℕ) (off : ℕ)
    → off < 2 ^ 48
    → off / 2 ^ 16 < length pgs
    → page_phys pgs 16 off ≡ add64 (get_or pgs (off / 2 ^ 16) 0) (off % 2 ^ 16)
unfolding page_phys
in_page pgs off small lt =
    let same : u32 (off / 2 ^ 16) ≡ off / 2 ^ 16 = omega arith in
    rw (same, lt→not_leb _ _ lt) (ap (add64 (get_or pgs (off / 2 ^ 16) 0)) (bit_and_mask 16 off))

page_of_row :
    (d : Dst) (row i : ℕ)
    → d.page_shift ≡ 16
    → i * row < 2 ^ 47
    → (d.va % 2 ^ 16 + i * row) / 2 ^ 16 < length d.pg_phys
    → dst_phys_of d row i
      ≡ add64 (get_or d.pg_phys ((d.va % 2 ^ 16 + i * row) / 2 ^ 16) 0) ((d.va + i * row) % 2 ^ 16)
unfolding dst_phys_of
page_of_row d row i e small lt =
    let off : ℕ = d.va % 2 ^ 16 + i * row in
    let same : add64 (bit_and d.va (2 ^ d.page_shift - 1)) (mul64 i row) ≡ off =
      ap (λ s. add64 (bit_and d.va (2 ^ s - 1)) (mul64 i row)) e
      ∙ omega (arith, bit_and_mask 16 d.va) in
    ap₂ (page_phys d.pg_phys) e same
    ∙ in_page d.pg_phys off (omega arith) lt
    ∙ ap (add64 (get_or d.pg_phys (off / 2 ^ 16) 0)) (omega arith)

table_entry :
    (r : Region) (d : Dst) (v : IsTableOf r d) (p : ℕ)
    → p < length d.pg_phys
    → get_or d.pg_phys p 0 ≡ (entry_at r.pages (start_page r d.va + p)).phys_addr
unfolding pages_in
table_entry r d v p lt =
    ap (λ t. get_or t p 0) v.pages
    ∙ get_or-copy_pages r.pages (start_page r d.va) _ p (
        omega (
          arith,
          lt,
          ap length v.pages,
          length-copy_pages r.pages (start_page r d.va)
              (clip_span (start_page r d.va) (page_span d.va v.len) (length r.pages) v.max),
        ))

-- If the page of the `i`-th row is in the table, the address that the client computes is the byte of
-- the row in the page that the region has at that GPU address.
pub dst_phys_of-entry :
    (r : Region) (d : Dst) (row i : ℕ)
    → IsTableOf r d
    → i * row < 2 ^ 47
    → (d.va % gpu_page_size + i * row) / gpu_page_size < length d.pg_phys
    → (entry_at r.pages ((d.va + i * row - r.gpu_va) / gpu_page_size)).phys_addr + gpu_page_size
      < 2 ^ 64
    → dst_phys_of d row i
      ≡ (entry_at r.pages ((d.va + i * row - r.gpu_va) / gpu_page_size)).phys_addr
        + (d.va + i * row) % gpu_page_size
dst_phys_of-entry r d row i v small lt fits =
    let p : ℕ = (d.va % 2 ^ 16 + i * row) / 2 ^ 16 in
    let inside = covers_lem r d.va v.region v.inside in
    let start = start_page_lem r d.va v.region v.inside in
    let entry = table_entry r d v p lt in
    let at : start_page r d.va + p ≡ (d.va + i * row - r.gpu_va) / gpu_page_size =
      omega (arith, start, inside, v.region) in
    let phys = entry ∙ ap (λ k. (entry_at r.pages k).phys_addr) at in
    page_of_row d row i v.shift small lt ∙ omega (arith, phys, fits)

tag :
    (node row k : ℕ)
    → node * row < 2 ^ 64
    → and_not (mul64 node row) (2 ^ k - 1) ≡ node * row / 2 ^ k * 2 ^ k
tag node row k w =
    let x : mul64 node row ≡ node * row = omega arith in
    rw (x, bit_and_mask k (node * row))
      (omega (arith, div-add-mod (node * row) (2 ^ k), one-le-pow k))

-- All rows of a page go to one shard, which is one of the shards.
pub shard_of_page :
    (node node' row k nr_shards : ℕ)
    → node * row < 2 ^ 64
    → node' * row < 2 ^ 64
    → 0 < nr_shards
    → node * row / 2 ^ k ≡ node' * row / 2 ^ k
    → (shard_of node row (2 ^ k) nr_shards ≡ shard_of node' row (2 ^ k) nr_shards)
      × (shard_of node row (2 ^ k) nr_shards < nr_shards)
unfolding shard_of
shard_of_page node node' row k nr w w' pos same = (
  ap (λ t. mul64 t 0x9e3779b97f4a7c15 / 2 ^ 40 % nr)
      (tag node row k w ∙ ap (λ q. q * 2 ^ k) same ∙ sym (tag node' row k w')),
  mod-lt _ pos,
)
