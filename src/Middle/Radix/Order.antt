-- ===== src/Middle/Radix/Order.antt =====
-- The four passes of `radix_by_page` sort by the 32-bit page index and keep every request.
use gpu_fpga_dma.Base.{
  ℕ, zero, suc, ◌*◌, ◌/◌, ◌%◌, ◌^◌, ◌≤◌, ◌<◌, ◌≡◌, sym, ◌∙◌, List, [], ◌∷◌, ◌++◌, arith, length,
  Array, subst,
}
use gpu_fpga_dma.Base.Words.{u32}
use gpu_fpga_dma.Base.Bits.{bit_and_mask}
use gpu_fpga_dma.Shard.{Ent}
use native.Mathlib.Decide.{ℕ_discrete}
use gpu_fpga_dma.Middle.Group.{radix_pass, radix_by_page, radix_digit}
use gpu_fpga_dma.Middle.Keeps.Join.{wants}
use gpu_fpga_dma.Middle.Radix.{these, by_digit, these_yes, these_no}
use gpu_fpga_dma.Middle.Radix.Pass.{
  radix_pass_lem, radix_digit-byte, length-radix_pass, wants-radix_pass,
}

-- Every entry has a key of at least `v`.
abbrev pub AtLeast : (Ent → ℕ) → ℕ → List Ent → Type 0
AtLeast f v [] = Unit
AtLeast f v (e ∷ es) = (v ≤ f e) × AtLeast f v es

-- The keys ascend.
abbrev pub Ascending : (Ent → ℕ) → List Ent → Type 0
Ascending f [] = Unit
Ascending f (e ∷ es) = AtLeast f (f e) es × Ascending f es

abbrev Below : (Ent → ℕ) → ℕ → List Ent → Type 0
Below f v [] = Unit
Below f v (e ∷ es) = (f e < v) × Below f v es

module _ (digit low key : Ent → ℕ)
    (same : (x y : Ent) → digit x ≡ digit y → low x ≤ low y → key x ≤ key y)
    (less : (x y : Ent) → digit x < digit y → key x ≤ key y) where
  these-AtLeast :
      (d : ℕ) (x : Ent) (es : List Ent)
      → digit x ≡ d
      → AtLeast low (low x) es
      → AtLeast key (key x) (these digit d es)
  these-AtLeast d x [] q a = tt
  these-AtLeast d x (e ∷ es) q a = elim (ℕ_discrete (digit e) d) [
    | yes r ↦
        subst (AtLeast key (key x)) (sym (these_yes digit e es d r))
          (same x e (q ∙ sym r) a.0, these-AtLeast d x es q a.1)
    | no ne ↦
        subst (AtLeast key (key x)) (sym (these_no digit e es d ne)) (these-AtLeast d x es q a.1)
  ]

  these-Ascending : (d : ℕ) (es : List Ent) → Ascending low es → Ascending key (these digit d es)
  these-Ascending d [] s = tt
  these-Ascending d (e ∷ es) s = elim (ℕ_discrete (digit e) d) [
    | yes r ↦
        subst (Ascending key) (sym (these_yes digit e es d r))
          (these-AtLeast d e es r s.0, these-Ascending d es s.1)
    | no ne ↦ subst (Ascending key) (sym (these_no digit e es d ne)) (these-Ascending d es s.1)
  ]

  these-after :
      (x : Ent) (d : ℕ) (es : List Ent) → digit x < d → AtLeast key (key x) (these digit d es)
  these-after x d [] h = tt
  these-after x d (e ∷ es) h = elim (ℕ_discrete (digit e) d) [
    | yes r ↦
        subst (AtLeast key (key x)) (sym (these_yes digit e es d r))
          (less x e (omega (arith, r)), these-after x d es h)
    | no ne ↦ subst (AtLeast key (key x)) (sym (these_no digit e es d ne)) (these-after x d es h)
  ]

  these-Below : (d v : ℕ) (es : List Ent) → d < v → Below digit v (these digit d es)
  these-Below d v [] h = tt
  these-Below d v (e ∷ es) h = elim (ℕ_discrete (digit e) d) [
    | yes r ↦
        subst (Below digit v) (sym (these_yes digit e es d r))
          (omega (arith, r), these-Below d v es h)
    | no ne ↦ subst (Below digit v) (sym (these_no digit e es d ne)) (these-Below d v es h)
  ]

  Below-append :
      (v : ℕ) (xs ys : List Ent) → Below digit v xs → Below digit v ys → Below digit v (xs ++ ys)
  Below-append v [] ys a b = b
  Below-append v (x ∷ xs) ys a b = (a.0, Below-append v xs ys a.1 b)

  Below-suc : (v : ℕ) (xs : List Ent) → Below digit v xs → Below digit (suc v) xs
  Below-suc v [] a = tt
  Below-suc v (x ∷ xs) a = (omega (arith, a.0), Below-suc v xs a.1)

  AtLeast-append :
      (v : ℕ) (xs ys : List Ent) → AtLeast key v xs → AtLeast key v ys → AtLeast key v (xs ++ ys)
  AtLeast-append v [] ys a b = b
  AtLeast-append v (x ∷ xs) ys a b = (a.0, AtLeast-append v xs ys a.1 b)

  Ascending-append :
      (d : ℕ) (xs es : List Ent)
      → Ascending key xs
      → Below digit d xs
      → Ascending low es
      → Ascending key (xs ++ these digit d es)
  Ascending-append d [] es s b t = these-Ascending d es t
  Ascending-append d (x ∷ xs) es s b t = (
    AtLeast-append (key x) xs (these digit d es) s.0 (these-after x d es b.0),
    Ascending-append d xs es s.1 b.1 t,
  )

  by_digit-Below : (n : ℕ) (es : List Ent) → Below digit n (by_digit digit n es)
  unfolding by_digit
  by_digit-Below zero es = tt
  by_digit-Below (suc n) es =
      Below-append (suc n) (by_digit digit n es) (these digit n es)
        (Below-suc n (by_digit digit n es) (by_digit-Below n es))
        (these-Below n (suc n) es (omega arith))

  by_digit-Ascending :
      (n : ℕ) (es : List Ent) → Ascending low es → Ascending key (by_digit digit n es)
  unfolding by_digit
  by_digit-Ascending zero es t = tt
  by_digit-Ascending (suc n) es t =
      Ascending-append n (by_digit digit n es) es (by_digit-Ascending n es t) (by_digit-Below n es)
        t

level : (es : List Ent) → Ascending (λ _. 0) es
level [] = tt
level (e ∷ es) = (flat es, level es)
  where
    flat : (xs : List Ent) → AtLeast (λ _. 0) 0 xs
    flat [] = tt
    flat (x ∷ xs) = (omega arith, flat xs)

module _ (shift : ℕ) where
  -- The 32-bit page index.
  abbrev pub page_index : Ent → ℕ
  page_index e = u32 (e.line_tag / 2 ^ shift)

  digit_eq : (pass : ℕ) (e : Ent) → radix_digit shift pass e ≡ page_index e / 2 ^ (pass * 8) % 256
  unfolding radix_digit
  digit_eq pass e = bit_and_mask 8 (page_index e / 2 ^ (pass * 8))

  pass-Ascending :
      (pass : ℕ) (low key : Ent → ℕ) (dst : Array Ent) (es : List Ent)
      → ((x y : Ent)
          → page_index x / 2 ^ (pass * 8) % 256 ≡ page_index y / 2 ^ (pass * 8) % 256
          → low x ≤ low y
          → key x ≤ key y)
      → ((x y : Ent)
          → page_index x / 2 ^ (pass * 8) % 256 < page_index y / 2 ^ (pass * 8) % 256
          → key x ≤ key y)
      → length es < 2 ^ 32
      → Ascending low es
      → Ascending key (radix_pass (radix_digit shift pass) dst es)
  pass-Ascending pass low key dst es same less few s =
      subst (Ascending key)
        (sym (radix_pass_lem (radix_digit shift pass) es (radix_digit-byte shift pass) few dst))
        (by_digit-Ascending (radix_digit shift pass) low key
          (λ x y q. same x y (sym (digit_eq pass x) ∙ q ∙ digit_eq pass y))
          (λ x y h. less x y (omega (arith, h, digit_eq pass x, digit_eq pass y))) 256 es s)

  -- For fewer than 2^32 entries, `radix_by_page` gives the entries in ascending order of their
  -- 32-bit page index, whatever the two buffers held, and each request as often as before.
  pub radix_by_page_lem :
      (a b : Array Ent) (es : List Ent) (r : ℕ)
      → length es < 2 ^ 32
      → Ascending page_index (radix_by_page shift a b es)
        × (wants r (radix_by_page shift a b es) ≡ wants r es)
  unfolding radix_by_page
  radix_by_page_lem a b es r few =
      let e1 = radix_pass (radix_digit shift 0) b es in
      let e2 = radix_pass (radix_digit shift 1) a e1 in
      let e3 = radix_pass (radix_digit shift 2) b e2 in
      let l1 = length-radix_pass (radix_digit shift 0) b es in
      let l2 = length-radix_pass (radix_digit shift 1) a e1 in
      let l3 = length-radix_pass (radix_digit shift 2) b e2 in
      let f1 : length e1 < 2 ^ 32 = omega (arith, l1, few) in
      let f2 : length e2 < 2 ^ 32 = omega (arith, l2, f1) in
      let f3 : length e3 < 2 ^ 32 = omega (arith, l3, f2) in
      let s1 =
        pass-Ascending 0 (λ _. 0) (λ e. page_index e % 256) b es (λ x y q h. omega (arith, q))
          (λ x y h. omega (arith, h)) few (level es) in
      let s2 =
        pass-Ascending 1 (λ e. page_index e % 256) (λ e. page_index e % 65536) a e1
          (λ x y q h. omega (arith, q, h)) (λ x y h. omega (arith, h)) f1 s1 in
      let s3 =
        pass-Ascending 2 (λ e. page_index e % 65536) (λ e. page_index e % 16777216) b e2
          (λ x y q h. omega (arith, q, h)) (λ x y h. omega (arith, h)) f2 s2 in
      let s4 =
        pass-Ascending 3 (λ e. page_index e % 16777216) page_index a e3
          (λ x y q h. omega (arith, q, h)) (λ x y h. omega (arith, h)) f3 s3 in
      (
        s4,
        wants-radix_pass (radix_digit shift 3) a e3 r (radix_digit-byte shift 3) f3
            ∙ wants-radix_pass (radix_digit shift 2) b e2 r (radix_digit-byte shift 2) f2
            ∙ wants-radix_pass (radix_digit shift 1) a e1 r (radix_digit-byte shift 1) f1
            ∙ wants-radix_pass (radix_digit shift 0) b es r (radix_digit-byte shift 0) few,
      )
