-- ===== src/Middle/Radix.antt =====
-- `radix_by_page`: each pass is the stable counting sort by one byte of the page index.
pub mod Pass
pub mod Order
use gpu_fpga_dma.Base.{
  ℕ, zero, suc, ◌+◌, ◌-◌, ◌^◌, ◌≤◌, ◌<◌, ◌≡◌, ◌≢◌, refl, sym, ap, ap₂, ◌∙◌, List, [], ◌∷◌, ◌++◌,
  arith, length, ◌==◌, if◌then◌else◌, Array, update, update_self, update_ne, ==_refl, ne→not_==,
  if-both, Bool-cases, inl, inr, ◌⊎◌,
}
use gpu_fpga_dma.Base.Words.{add32}
use gpu_fpga_dma.Shard.{Ent}
use gpu_fpga_dma.Shard.Chain.{total, total_cong, total-update}
use native.Mathlib.Decide.{ℕ_discrete, dec_lt}
use gpu_fpga_dma.Middle.Group.{
  radix_count, radix_scatter, radix_sums, entries_from, radix_pass, radix_by_page, radix_digit,
}

module _ (digit : Ent → ℕ) where
  -- How many entries have digit `d`, and which, in their order.
  abbrev pub many : ℕ → List Ent → ℕ
  many d [] = 0
  many d (e ∷ es) = (if digit e == d then 1 else 0) + many d es

  abbrev pub these : ℕ → List Ent → List Ent
  these d [] = []
  these d (e ∷ es) = if digit e == d then e ∷ these d es else these d es

  -- The entries by ascending digit below `n`, those of one digit in their order.
  unfoldable pub by_digit : ℕ → List Ent → List Ent
  by_digit zero es = []
  by_digit (suc n) es = by_digit n es ++ these n es

  pub these_yes :
      (e : Ent) (es : List Ent) (d : ℕ) → digit e ≡ d → these d (e ∷ es) ≡ e ∷ these d es
  these_yes e es d q = rw (q, ==_refl d) refl

  pub these_no : (e : Ent) (es : List Ent) (d : ℕ) → digit e ≢ d → these d (e ∷ es) ≡ these d es
  these_no e es d ne = rw (ne→not_== (digit e) d ne) refl

  pub many-le-length : (d : ℕ) (es : List Ent) → many d es ≤ length es
  many-le-length d [] = omega arith
  many-le-length d (e ∷ es) = ground (arith, many-le-length d es)

  -- Places are disjoint: `cnt d` is the first of the `many d es` places of digit `d`.
  abbrev pub Apart : Array ℕ → List Ent → Type 0
  Apart cnt es = (d c : ℕ) → d ≢ c → (cnt d + many d es ≤ cnt c) ⊎ (cnt c + many c es ≤ cnt d)

  abbrev pub InWord : Array ℕ → List Ent → Type 0
  InWord cnt es = (d : ℕ) → cnt d + many d es < 2 ^ 32

  module _ (e : Ent) (es : List Ent) (cnt : Array ℕ) (word : InWord cnt (e ∷ es)) where
    abbrev next : Array ℕ
    next = update cnt (digit e) (add32 (cnt (digit e)) 1)

    next-InWord : InWord next es
    next-InWord d = ground (arith, word d, word (digit e))

    next-Apart : Apart cnt (e ∷ es) → Apart next es
    next-Apart a d c ne = ground (arith, a d c ne, word (digit e))

  -- A place outside all intervals keeps its contents.
  scatter_outside :
      (es : List Ent) (cnt : Array ℕ) (dst : Array Ent) (i : ℕ)
      → InWord cnt es
      → ((d : ℕ) → (i < cnt d) ⊎ (cnt d + many d es ≤ i))
      → radix_scatter digit es cnt dst i ≡ dst i
  unfolding radix_scatter
  scatter_outside [] cnt dst i word out = refl
  scatter_outside (e ∷ es) cnt dst i word out =
      scatter_outside es (next e es cnt word) (update dst (cnt (digit e)) e) i
        (next-InWord e es cnt word)
        (λ d. ground (arith, out d, out (digit e), word (digit e), ==_refl (digit e)))
      ∙ update_ne dst e (ground (arith, out (digit e), ==_refl (digit e)))

  -- The places of each digit hold the entries of that digit, in their order.
  pub scatter_block :
      (es : List Ent) (cnt : Array ℕ) (dst : Array Ent) (d : ℕ)
      → InWord cnt es
      → Apart cnt es
      → entries_from (many d es) (cnt d) (radix_scatter digit es cnt dst) ≡ these d es
  unfolding radix_scatter entries_from
  scatter_block [] cnt dst d word a = refl
  scatter_block (e ∷ es) cnt dst d word a =
      let cnt' = next e es cnt word in
      let dst' = update dst (cnt (digit e)) e in
      let later =
        scatter_block es cnt' dst' d (next-InWord e es cnt word) (next-Apart e es cnt word a) in
      elim (ℕ_discrete (digit e) d) [
        | yes q ↦
            let one : add32 (cnt d) 1 ≡ cnt d + 1 = ground (arith, word d) in
            let at : cnt' d ≡ cnt d + 1 = ground arith in
            let top : radix_scatter digit es cnt' dst' (cnt d) ≡ e =
              scatter_outside es cnt' dst' (cnt d) (next-InWord e es cnt word)
                (λ c. ground (arith, a d c, word (digit e), ==_refl d))
              ∙ ground (arith, ==_refl (cnt d)) in
            ap (λ m. entries_from m (cnt d) (radix_scatter digit es cnt' dst'))
              {x = many d (e ∷ es)} {y = suc (many d es)} (ground arith)
            ∙ ap₂ (λ x xs. x ∷ xs) top
                (ap (λ j. entries_from (many d es) j (radix_scatter digit es cnt' dst')) (sym at)
                  ∙ later)
            ∙ sym (these_yes e es d q)
        | no ne ↦
            ap (λ m. entries_from m (cnt d) (radix_scatter digit es cnt' dst'))
              {x = many d (e ∷ es)} {y = many d es} (ground arith)
            ∙ ap (λ j. entries_from (many d es) j (radix_scatter digit es cnt' dst'))
                (sym (update_ne cnt _ ne))
            ∙ later
            ∙ sym (these_no e es d ne)
      ]

  pub entries-split :
      (a b i : ℕ) (f : Array Ent)
      → entries_from (a + b) i f ≡ entries_from a i f ++ entries_from b (i + a) f
  unfolding entries_from
  entries-split zero b i f = ap₂ (λ n j. entries_from n j f) (omega arith) (omega arith)
  entries-split (suc a) b i f =
      ap (λ n. entries_from n i f) {x = suc a + b} {y = suc (a + b)} (omega arith)
      ∙ ap (λ t. f i ∷ t)
          (entries-split a b (i + 1) f
            ∙ ap (λ j. entries_from a (i + 1) f ++ entries_from b j f) (omega arith))

  pub radix_count_lem :
      (es : List Ent) (cnt : Array ℕ) (d : ℕ)
      → InWord cnt es
      → radix_count digit es cnt d ≡ cnt d + many d es
  unfolding radix_count
  radix_count_lem [] cnt d word = omega arith
  radix_count_lem (e ∷ es) cnt d word =
      radix_count_lem es (next e es cnt word) d (next-InWord e es cnt word)
      ∙ ground (arith, word (digit e))

pub sums_outside :
    (n i sum : ℕ) (cnt : Array ℕ) (d : ℕ) → (d < i) ⊎ (i + n ≤ d) → radix_sums n i sum cnt d ≡ cnt d
unfolding radix_sums
sums_outside zero i sum cnt d out = refl
sums_outside (suc n) i sum cnt d out =
    sums_outside n (i + 1) (add32 sum (cnt i)) (update cnt i sum) d (ground (arith, out))
    ∙ update_ne cnt sum (ground (arith, out))

pub total_mono : (a b : ℕ) (f : Array ℕ) → total a f ≤ total (a + b) f
unfolding total
total_mono a zero f = omega (arith, ap (λ k. total k f) {x = a + 0} {y = a} (omega arith))
total_mono a (suc b) f =
    omega
      (arith, total_mono a b f, ap (λ k. total k f) {x = a + suc b} {y = suc (a + b)} (omega arith))

pub sums_at :
    (f : Array ℕ) (n i sum : ℕ) (cnt : Array ℕ) (d : ℕ)
    → ((j : ℕ) → i ≤ j → cnt j ≡ f j)
    → sum ≡ total i f
    → total (i + n) f < 2 ^ 32
    → i ≤ d
    → d < i + n
    → radix_sums n i sum cnt d ≡ total d f
unfolding radix_sums total
sums_at f zero i sum cnt d same start fits lo hi = absurd (omega arith)
sums_at f (suc n) i sum cnt d same start fits lo hi =
    let later : total (i + suc n) f ≡ total (suc i + n) f = ap (λ k. total k f) (omega arith) in
    let again : total (i + 1 + n) f ≡ total (i + suc n) f = ap (λ k. total k f) (omega arith) in
    let plus : total (i + 1) f ≡ total i f + f i =
      ap (λ k. total k f) {x = i + 1} {y = suc i} (omega arith) in
    elim (ℕ_discrete i d) [
      | yes e ↦
          sums_outside n (i + 1) (add32 sum (cnt i)) (update cnt i sum) d (inl (omega arith))
          ∙ ground arith
          ∙ start
          ∙ ap (λ k. total k f) e
      | no ne ↦
          sums_at f n (i + 1) (add32 sum (cnt i)) (update cnt i sum) d
            (λ j lt. ground (arith, same j))
            (omega (arith, start, same i (omega arith), fits, total_mono (suc i) n f, later, plus))
            (omega (arith, again, fits)) (omega arith) (omega arith)
    ]
