-- ===== src/Middle/Radix/Pass.antt =====
-- One pass of `radix_by_page`, and that the passes keep the requests.
use gpu_fpga_dma.Base.{
  ℕ, zero, suc, ◌+◌, ◌-◌, ◌*◌, ◌/◌, ◌^◌, ◌≤◌, ◌<◌, ◌≡◌, refl, sym, ap, ap₂, ◌∙◌, List, [], ◌∷◌,
  ◌++◌, arith, length, ◌==◌, if◌then◌else◌, Array, update, update_self, update_ne, inl, inr,
}
use gpu_fpga_dma.Base.Words.{u32}
use gpu_fpga_dma.Shard.{Ent}
use gpu_fpga_dma.Shard.Chain.{total, total_cong, total-update}
use native.Mathlib.Decide.{ℕ_discrete, dec_lt}
use gpu_fpga_dma.Middle.Group.{
  radix_count, radix_scatter, radix_sums, entries_from, radix_pass, radix_digit,
}
use gpu_fpga_dma.Base.Bits.{bit_and_mask}
use gpu_fpga_dma.Middle.Keeps.Join.{wants}
use gpu_fpga_dma.Middle.Keeps.Issue.{wants-append}
use gpu_fpga_dma.Middle.Radix.{
  many, these, by_digit, these_yes, these_no, many-le-length, Apart, InWord, scatter_block,
  entries-split, radix_count_lem, sums_outside, sums_at, total_mono,
}

none_above :
    (digit : Ent → ℕ) (d : ℕ) (es : List Ent)
    → ((e : Ent) → digit e < 256)
    → 256 ≤ d
    → many digit d es ≡ 0
none_above digit d [] byte h = refl
none_above digit d (e ∷ es) byte h = ground (arith, byte e, none_above digit d es byte h)

total_none : (n : ℕ) → total n (λ _. 0) ≡ 0
unfolding total
total_none zero = refl
total_none (suc n) = omega (arith, total_none n)

many-total :
    (digit : Ent → ℕ) (es : List Ent)
    → ((e : Ent) → digit e < 256)
    → total 256 (λ d. many digit d es) ≡ length es
many-total digit [] byte = total_none 256
many-total digit (e ∷ es) byte =
    let same =
      total_cong 256 (λ d. many digit d (e ∷ es))
        (update (λ d. many digit d es) (digit e) (1 + many digit (digit e) es))
        (λ d h. ground arith) in
    omega (
      arith,
      same,
      many-total digit es byte,
      total-update 256 (λ d. many digit d es) (digit e) (1 + many digit (digit e) es) (byte e),
    )

module _ (digit : Ent → ℕ) (es : List Ent) (byte : (e : Ent) → digit e < 256)
    (few : length es < 2 ^ 32) where
  abbrev sizes : Array ℕ
  sizes d = many digit d es

  abbrev starts : Array ℕ
  starts = radix_sums 256 0 0 (radix_count digit es (λ _. 0))

  counted : (d : ℕ) → radix_count digit es (λ _. 0) d ≡ sizes d
  counted d =
      radix_count_lem digit es (λ _. 0) d (λ c. omega (arith, many-le-length digit c es))
      ∙ omega arith

  all_sizes : total 256 sizes ≡ length es
  all_sizes = many-total digit es byte

  below_all : (d : ℕ) → d < 256 → total (suc d) sizes ≤ length es
  below_all d h = omega (
    arith,
    total_mono (suc d) (255 - d) sizes,
    ap (λ k. total k sizes) {x = suc d + (255 - d)} {y = 256} (omega arith),
    all_sizes,
  )

  starts_low : (d : ℕ) → d < 256 → starts d ≡ total d sizes
  unfolding total
  starts_low d h =
      sums_at sizes 256 0 0 (radix_count digit es (λ _. 0)) d (λ j _. counted j) refl
        (omega (arith, all_sizes)) (omega arith) (omega arith)

  starts_high : (d : ℕ) → 256 ≤ d → starts d ≡ 0
  starts_high d h =
      sums_outside 256 0 0 (radix_count digit es (λ _. 0)) d (inr (omega arith))
      ∙ counted d
      ∙ none_above digit d es byte h

  starts_end : (d : ℕ) → d < 256 → starts d + sizes d ≡ total (suc d) sizes
  unfolding total
  starts_end d h = omega (arith, starts_low d h)

  starts-InWord : InWord digit starts es
  starts-InWord d = elim (dec_lt d 256) [
    | yes h ↦ omega (arith, starts_end d h, below_all d h)
    | no g ↦ omega (arith, starts_high d (omega arith), none_above digit d es byte (omega arith))
  ]

  ordered : (d c : ℕ) → d < c → c < 256 → starts d + sizes d ≤ starts c
  ordered d c lt h = omega (
    arith,
    starts_end d (omega arith),
    starts_low c h,
    total_mono (suc d) (c - suc d) sizes,
    ap (λ k. total k sizes) {x = suc d + (c - suc d)} {y = c} (omega arith),
  )

  starts-Apart : Apart digit starts es
  starts-Apart d c ne = elim (dec_lt d 256) [
    | no g ↦
        inl (omega (arith, starts_high d (omega arith), none_above digit d es byte (omega arith)))
    | yes hd ↦ elim (dec_lt c 256) [
      | no g ↦
          inr (omega (arith, starts_high c (omega arith), none_above digit c es byte (omega arith)))
      | yes hc ↦ elim (dec_lt d c) [
        | yes lt ↦ inl (ordered d c lt hc)
        | no ge ↦ inr (ordered c d (omega arith) hd)
      ]
    ]
  ]

  blocks :
      (dst : Array Ent) (n : ℕ)
      → n ≤ 256
      → entries_from (total n sizes) 0 (radix_scatter digit es starts dst) ≡ by_digit digit n es
  unfolding total by_digit entries_from
  blocks dst zero h = refl
  blocks dst (suc n) h =
      entries-split digit (total n sizes) (sizes n) 0 (radix_scatter digit es starts dst)
      ∙ ap₂ (λ xs ys. xs ++ ys) (blocks dst n (omega arith))
          (ap (λ j. entries_from (sizes n) j (radix_scatter digit es starts dst))
              {x = 0 + total n sizes} {y = starts n} (omega (arith, starts_low n (omega arith)))
            ∙ scatter_block digit es starts dst n starts-InWord starts-Apart)

  -- A pass of the radix sort over fewer than 2^32 entries with digits below 256 gives the entries
  -- by ascending digit, those with the same digit in their order.
  pub radix_pass_lem : (dst : Array Ent) → radix_pass digit dst es ≡ by_digit digit 256 es
  unfolding radix_pass
  radix_pass_lem dst =
      ap (λ m. entries_from m 0 (radix_scatter digit es starts dst)) (sym all_sizes)
      ∙ blocks dst 256 (omega arith)

-- How many of the entries ask for request `r`, digit by digit.
wants-by_digit :
    (digit : Ent → ℕ) (r n : ℕ) (es : List Ent)
    → wants r (by_digit digit n es) ≡ total n (λ d. wants r (these digit d es))
unfolding total by_digit
wants-by_digit digit r zero es = refl
wants-by_digit digit r (suc n) es =
    omega
      (arith, wants-append r (by_digit digit n es) (these digit n es), wants-by_digit digit r n es)

wants-these :
    (digit : Ent → ℕ) (r : ℕ) (es : List Ent)
    → ((e : Ent) → digit e < 256)
    → total 256 (λ d. wants r (these digit d es)) ≡ wants r es
wants-these digit r [] byte = total_none 256
wants-these digit r (e ∷ es) byte =
    let n : ℕ = if e.req_id == r then 1 else 0 in
    let f : Array ℕ = λ d. wants r (these digit d es) in
    let same =
      total_cong 256 (λ d. wants r (these digit d (e ∷ es))) (update f (digit e) (n + f (digit e)))
        (λ d h. elim (ℕ_discrete (digit e) d) [
          | yes q ↦
              ap (wants r) (these_yes digit e es d q)
              ∙ ap (λ c. n + f c) (sym q)
              ∙ sym (update_self f (digit e) (n + f (digit e)))
              ∙ ap (update f (digit e) (n + f (digit e))) q
          | no ne ↦ ap (wants r) (these_no digit e es d ne) ∙ sym (update_ne f _ ne)
        ]) in
    omega (
      arith,
      same,
      wants-these digit r es byte,
      total-update 256 f (digit e) (n + f (digit e)) (byte e),
    )

length-entries : (n i : ℕ) (f : Array Ent) → length (entries_from n i f) ≡ n
unfolding entries_from
length-entries zero i f = refl
length-entries (suc n) i f = ap suc (length-entries n (i + 1) f)

pub length-radix_pass :
    (digit : Ent → ℕ) (dst : Array Ent) (es : List Ent)
    → length (radix_pass digit dst es) ≡ length es
unfolding radix_pass
length-radix_pass digit dst es = length-entries (length es) 0 _

pub radix_digit-byte : (shift pass : ℕ) (e : Ent) → radix_digit shift pass e < 256
unfolding radix_digit
radix_digit-byte shift pass e =
    omega (arith, bit_and_mask 8 (u32 (e.line_tag / 2 ^ shift) / 2 ^ (pass * 8)))

pub wants-radix_pass :
    (digit : Ent → ℕ) (dst : Array Ent) (es : List Ent) (r : ℕ)
    → ((e : Ent) → digit e < 256)
    → length es < 2 ^ 32
    → wants r (radix_pass digit dst es) ≡ wants r es
wants-radix_pass digit dst es r byte few =
    ap (wants r) (radix_pass_lem digit es byte few dst)
    ∙ wants-by_digit digit r 256 es
    ∙ wants-these digit r es byte
