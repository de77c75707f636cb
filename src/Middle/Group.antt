-- ===== src/Middle/Group.antt =====
-- Grouping of a window by page: `radix_by_page`, `cmp_tag`, `count_adjacent`, `hash_unique` and
-- `co_sort_window`.
use gpu_fpga_dma.Base.{
  ℕ, zero, suc, ◌+◌, ◌-◌, ◌*◌, ◌/◌, ◌^◌, bit_and, Bool, true, false, List, [], ◌∷◌, ◌==◌, ltb,
  if◌then◌else◌, Array, update, length,
}
use gpu_fpga_dma.Base.Words.{u32, add32, add64, sub64, mul64, ilog2}
use gpu_fpga_dma.Shard.{Ent}
use gpu_fpga_dma.Middle.{Ops, Params, Mid}

-- `cmp_tag`, as whether the first entry comes after the second.
abbrev pub after_tag : Ent → Ent → Bool
after_tag a b = ltb b.line_tag a.line_tag

-- The byte of the 32-bit page index that a pass of the radix sort looks at.
unfoldable pub radix_digit : ℕ → ℕ → Ent → ℕ
radix_digit page_shift pass e = bit_and (u32 (e.line_tag / 2 ^ page_shift) / 2 ^ (pass * 8)) 0xff

module _ (digit : Ent → ℕ) where
  -- The histogram of the digits.
  unfoldable pub radix_count : List Ent → Array ℕ → Array ℕ
  radix_count [] cnt = cnt
  radix_count (e ∷ es) cnt = radix_count es (update cnt (digit e) (add32 (cnt (digit e)) 1))

  -- Each entry goes to the next place of its digit.
  unfoldable pub radix_scatter : List Ent → Array ℕ → Array Ent → Array Ent
  radix_scatter [] cnt dst = dst
  radix_scatter (e ∷ es) cnt dst =
      radix_scatter es (update cnt (digit e) (add32 (cnt (digit e)) 1))
        (update dst (cnt (digit e)) e)

-- The running sums of the histogram, from place `i` on, `n` places long.
unfoldable pub radix_sums : ℕ → ℕ → ℕ → Array ℕ → Array ℕ
radix_sums zero i sum cnt = cnt
radix_sums (suc n) i sum cnt = radix_sums n (i + 1) (add32 sum (cnt i)) (update cnt i sum)

-- The first `n` entries of a buffer, from place `i` on.
unfoldable pub entries_from : ℕ → ℕ → Array Ent → List Ent
entries_from zero i f = []
entries_from (suc n) i f = f i ∷ entries_from n (i + 1) f

-- One pass, from the entries of one buffer into another.
unfoldable pub radix_pass : (Ent → ℕ) → Array Ent → List Ent → List Ent
unfolding radix_count radix_sums radix_scatter entries_from
radix_pass digit dst es =
    let cnt = radix_sums 256 0 0 (radix_count digit es (λ _. 0)) in
    entries_from (length es) 0 (radix_scatter digit es cnt dst)

-- `radix_by_page`: four passes between the window and the scratch buffer, whose contents `a` and
-- `b` at the time of each pass are overwritten.
unfoldable pub radix_by_page : ℕ → Array Ent → Array Ent → List Ent → List Ent
unfolding radix_pass radix_digit
radix_by_page page_shift a b es =
    let pass =
      λ (i : ℕ) (dst : Array Ent) (xs : List Ent). radix_pass (radix_digit page_shift i) dst xs in
    pass 3 a (pass 2 b (pass 1 a (pass 0 b es)))

-- `count_adjacent`, behind an entry of tag `prev`.
unfoldable pub count_changes : ℕ → List Ent → ℕ
count_changes prev [] = 0
count_changes prev (e ∷ es) = (if e.line_tag == prev then 0 else 1) + count_changes e.line_tag es

unfoldable pub count_adjacent : List Ent → ℕ
unfolding count_changes
count_adjacent [] = 0
count_adjacent (e ∷ es) = 1 + count_changes e.line_tag es

abbrev pub empty_key : ℕ
empty_key = 2 ^ 64 - 1

abbrev pub hash_slot : ℕ → ℕ → ℕ
hash_slot mask key = bit_and (u32 (mul64 key 0x9e3779b97f4a7c15 / 2 ^ 40)) mask

-- The probe of `hash_unique`: the place where the key is or belongs, and whether it is new. The
-- fuel is the size of the table.
unfoldable pub hash_probe : ℕ → ℕ → Array ℕ → ℕ → ℕ → ℕ × Bool
hash_probe zero mask tab key h = (h, true)
hash_probe (suc f) mask tab key h = elim (tab h == empty_key) [
  | true ↦ (h, true)
  | false ↦ elim (tab h == key) [
    | true ↦ (h, false)
    | false ↦ hash_probe f mask tab key (bit_and (add32 h 1) mask)
  ]
]

unfoldable pub hash_from : ℕ → Array ℕ → List Ent → ℕ
hash_from mask tab [] = 0
hash_from mask tab (e ∷ es) =
    let key = e.line_tag in
    let (h, new) = hash_probe (mask + 1) mask tab key (hash_slot mask key) in
    let tab' = if new then update tab h key else tab in
    (if new then 1 else 0) + hash_from mask tab' es

-- `hash_unique`, with the table cleared.
unfoldable pub hash_unique : ℕ → List Ent → ℕ
unfolding hash_probe hash_from
hash_unique mask es = hash_from mask (λ _. empty_key) es

abbrev pub co_sort_comparison : ℕ
co_sort_comparison = 1

abbrev pub co_sort_hash : ℕ
co_sort_hash = 2

abbrev pub co_sort_bucket : ℕ
co_sort_bucket = 3

abbrev pub no_ent : Ent
no_ent = record { line_tag = 0; req_id = 0; dst_phys = 0; node_id = 0 }

module _ {E : Type 0} (ops : Ops E) (p : Params) where
  -- The window after the sort that is set, and its number of unique pages.
  unfoldable pub grouped : List Ent → List Ent × ℕ
  grouped win =
      if p.sort == co_sort_comparison
      then (let w = ops.sort win in (w, count_adjacent w))
      else if p.sort == co_sort_hash
      then (win, hash_unique p.htab_mask win)
      else (let w = radix_by_page (ilog2 p.page) (λ _. no_ent) (λ _. no_ent) win in
          (w, count_adjacent w))

  -- `co_sort_window`
  unfoldable pub sort_window : Mid E → Mid E
  sort_window m =
      let s = m.shard in
      let (t0, env) = ops.local_clock m.env in
      let (win, uniq) = grouped s.win in
      let (t1, env') = ops.local_clock env in
      record {
        shard = record s { win = win; flush_uniq = uniq; issue_pos = 0; win_sorted = true };
        stats = record (m.stats) { sort_ns = add64 (m.stats).sort_ns (sub64 t1 t0) };
        env = env';
      }
