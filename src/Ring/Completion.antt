-- ===== src/Ring/Completion.antt =====
-- The completion ring is a FIFO of at most `cq_entries` completions, whatever its cursors wrap.
use gpu_fpga_dma.Base.{
  ℕ, zero, suc, ◌+◌, ◌-◌, ◌^◌, ◌≤◌, ◌<◌, ◌≡◌, ◌≢◌, refl, sym, ap, subst, ◌∙◌, Bool, true, false,
  Option, none, some, List, [], ◌∷◌, ◌++◌, arith, length, drop, ltb, Bool-cases, if◌then◌else◌,
  bit_and, ◌==◌, inl, inr, ◌⊎◌, update, length-drop,
}
use gpu_fpga_dma.Base.Bits.{bit_and_mask}
use gpu_fpga_dma.Base.Words.{add32, sub32}
use gpu_fpga_dma.Ring.Queue.{cell, items, length-items, items-push, items-drop, pow-le}
use gpu_fpga_dma.Ring.{
  Ring, Cqe, Round, Push, settle, pushed, stopped, waiting, gpu_takes, try_push_cqe, push_cqe,
  pop_cqe,
}

-- The geometry that the module sets up, and cursors that are at most a lap apart.
pub record IsQueue (k : ℕ) (r : Ring) : Type 0 where
  pub narrow : k ≤ 31
  pub entries : r.cq_entries ≡ 2 ^ k
  pub mask : r.cq_mask ≡ 2 ^ k - 1
  pub head_word : r.cq_head < 2 ^ 32
  pub tail_word : r.cq_tail < 2 ^ 32
  pub within : sub32 r.cq_head r.cq_tail ≤ 2 ^ k

-- The completions that wait for the GPU, oldest first.
abbrev pub contents : ℕ → Ring → List Cqe
contents k r = items k r.cq (sub32 r.cq_head r.cq_tail) r.cq_tail

-- A bounded FIFO.
abbrev pub offer : ℕ → List Cqe → Cqe → Option (List Cqe)
offer cap q c = if ltb (length q) cap then some (q ++ (c ∷ [])) else none

abbrev pub uncons : List Cqe → Option Cqe × List Cqe
uncons [] = (none, [])
uncons (c ∷ q) = (some c, q)

abbrev pub map_contents : ℕ → Option Ring → Option (List Cqe)
map_contents k none = none
map_contents k (some r) = some (contents k r)

abbrev pub Each : (Ring → Type 0) → Option Ring → Type 0
Each P none = Unit
Each P (some r) = P r

items_one :
    (k n t : ℕ) (f : ℕ → Cqe) → n ≢ 0 → items k f n t ≡ f (cell k t) ∷ items k f (n - 1) (add32 t 1)
unfolding items
items_one k zero t f h = absurd (h refl)
items_one k (suc n) t f h = ap (λ m. f (cell k t) ∷ items k f m (add32 t 1)) (omega arith)

items_none : (k n t : ℕ) (f : ℕ → Cqe) → n ≡ 0 → items k f n t ≡ []
unfolding items
items_none k zero t f h = refl
items_none k (suc n) t f h = absurd (omega arith)

module _ {k : ℕ} {r : Ring} (v : IsQueue k r) where
  pub length-contents : length (contents k r) ≡ sub32 r.cq_head r.cq_tail
  length-contents = length-items k r.cq (sub32 r.cq_head r.cq_tail) r.cq_tail

  -- The ring that a push with room leaves.
  filled : Cqe → Ring
  filled c = record r {
    cq = update r.cq (bit_and r.cq_head r.cq_mask) c;
    cq_head = add32 r.cq_head 1;
  }

  room :
      sub32 r.cq_head r.cq_tail < 2 ^ k
      → sub32 (add32 r.cq_head 1) r.cq_tail ≡ suc (sub32 r.cq_head r.cq_tail)
  room h = omega (arith, pow-le k 31 v.narrow)

  contents-filled :
      (c : Cqe)
      → sub32 r.cq_head r.cq_tail < 2 ^ k
      → contents k (filled c) ≡ contents k r ++ (c ∷ [])
  unfolding filled
  contents-filled c h =
      let at : bit_and r.cq_head r.cq_mask ≡ cell k r.cq_head =
        ap (bit_and r.cq_head) v.mask ∙ bit_and_mask k r.cq_head in
      rw (room h, at)
        (items-push k r.cq (sub32 r.cq_head r.cq_tail) r.cq_tail r.cq_head c (omega arith) h
          (omega arith))

  filled-IsQueue : (c : Cqe) → sub32 r.cq_head r.cq_tail < 2 ^ k → IsQueue k (filled c)
  unfolding filled
  filled-IsQueue c h = record {
    narrow = v.narrow;
    entries = v.entries;
    mask = v.mask;
    head_word = omega arith;
    tail_word = v.tail_word;
    within = omega (arith, room h);
  }

  -- A round of `push_cqe` appends the completion exactly if the ring has room, and leaves a ring.
  pub try_push_cqe_refines :
      (c : Cqe)
      → (map_contents k (try_push_cqe r c) ≡ offer r.cq_entries (contents k r) c)
        × Each (IsQueue k) (try_push_cqe r c)
  unfolding try_push_cqe filled
  try_push_cqe_refines c = elim (Bool-cases (ltb (sub32 r.cq_head r.cq_tail) r.cq_entries)) [
    | inl e ↦
        let h : sub32 r.cq_head r.cq_tail < 2 ^ k = ground (arith, v.entries) in
        rw (e, length-contents, e) (ap some (contents-filled c h), filled-IsQueue c h)
    | inr e ↦ rw (e, length-contents, e) (refl, tt)
  ]

  -- `l1_pop_cqe` takes the oldest completion.
  pub pop_cqe_refines :
      ((pop_cqe r).0 ≡ (uncons (contents k r)).0)
      × (contents k (pop_cqe r).1 ≡ (uncons (contents k r)).1)
      × IsQueue k (pop_cqe r).1
  unfolding pop_cqe
  pop_cqe_refines = elim (Bool-cases (r.cq_head == r.cq_tail)) [
    | inl e ↦ ground (arith, items_none k (sub32 r.cq_head r.cq_tail) r.cq_tail r.cq)
    | inr e ↦
        let at : bit_and r.cq_tail (r.cq_entries - 1) ≡ cell k r.cq_tail =
          ap (λ m. bit_and r.cq_tail (m - 1)) v.entries ∙ bit_and_mask k r.cq_tail in
        ground
          (arith, at, items_one k (sub32 r.cq_head r.cq_tail) r.cq_tail r.cq, pow-le k 31 v.narrow)
  ]

  pub gpu_takes_refines :
      (n : ℕ)
      → n ≤ length (contents k r)
      → (contents k (gpu_takes n r) ≡ drop n (contents k r)) × IsQueue k (gpu_takes n r)
  gpu_takes_refines n h =
      let fits : n ≤ sub32 r.cq_head r.cq_tail = omega (arith, length-contents) in
      let small : 2 ^ k ≤ 2 ^ 31 = pow-le k 31 v.narrow in
      let left : sub32 r.cq_head (add32 r.cq_tail n) ≡ sub32 r.cq_head r.cq_tail - n =
        omega arith in
      (
        rw left (items-drop k r.cq n (sub32 r.cq_head r.cq_tail) r.cq_tail fits v.tail_word),
        record {
          narrow = v.narrow;
          entries = v.entries;
          mask = v.mask;
          head_word = v.head_word;
          tail_word = omega arith;
          within = omega arith;
        },
      )

-- The GPU takes no more than there is.
abbrev pub demand : List Round → ℕ
demand [] = 0
demand (w ∷ ws) = w.taken + demand ws

abbrev pub AnyStop : List Round → Type 0
AnyStop [] = ⊥
AnyStop (w ∷ ws) = (w.stop ≡ true) ⊎ AnyStop ws

abbrev pub NoneTaken : List Round → Type 0
NoneTaken [] = Unit
NoneTaken (w ∷ ws) = (w.taken ≡ 0) × NoneTaken ws

-- How a push may end, from a ring that holds `q`.
abbrev pub Ends : ℕ → List Cqe → Cqe → List Round → Push → Type 0
Ends k q c ws (pushed r) =
    IsQueue k r × ((n : ℕ) × (n ≤ demand ws) × (contents k r ≡ drop n q ++ (c ∷ [])))
Ends k q c ws (stopped r) = IsQueue k r × (contents k r ≡ q) × (length q ≡ 2 ^ k) × AnyStop ws
Ends k q c ws (waiting r) = IsQueue k r × (contents k r ≡ q) × NoneTaken ws

offer-none : (cap : ℕ) (q : List Cqe) (c : Cqe) → offer cap q c ≡ none → cap ≤ length q
offer-none cap q c e = ground arith

offer-some : (cap : ℕ) (q q' : List Cqe) (c : Cqe) → offer cap q c ≡ some q' → q' ≡ q ++ (c ∷ [])
offer-some cap q q' c e = ground arith

-- A ring that has no room after the GPU took `n` completions had none taken.
full_untouched :
    (k n : ℕ) (q : List Cqe)
    → n ≤ length q
    → length q ≤ 2 ^ k
    → 2 ^ k ≤ length (drop n q)
    → (n ≡ 0) × (drop n q ≡ q) × (length q ≡ 2 ^ k)
full_untouched k zero q h b f = (refl, refl, omega arith)
full_untouched k (suc n) q h b f = absurd (omega (arith, length-drop (suc n) q))

Ends-later :
    (k : ℕ) (q : List Cqe) (c : Cqe) (w : Round) (ws : List Round)
    → w.taken ≡ 0
    → (p : Push) → Ends k q c ws p
    → Ends k q c (w ∷ ws) p
Ends-later k q c w ws z (pushed r) (v, rest) = (v, (rest.0, omega (arith, rest.1), rest.2))
Ends-later k q c w ws z (stopped r) (v, e, f, a) = (v, e, f, inr a)
Ends-later k q c w ws z (waiting r) (v, e, a) = (v, e, (z, a))

module _ (k : ℕ) (w : Round) (ws : List Round) (r : Ring) (c : Cqe) (v : IsQueue k r) where
  abbrev after : Ring
  after = gpu_takes w.taken r

  -- One round, given how the later ones end.
  round-Ends :
      w.taken + demand ws ≤ length (contents k r)
      → (IsQueue k after
          → demand ws ≤ length (contents k after)
          → Ends k (contents k after) c ws (push_cqe ws after c))
      → (o : Option Ring) (stop : Bool) → try_push_cqe after c ≡ o
      → w.stop ≡ stop
      → Ends k (contents k r) c (w ∷ ws) (settle o stop after (push_cqe ws after c))
  round-Ends d later o stop e s = go o stop e s
    where
      took : (contents k after ≡ drop w.taken (contents k r)) × IsQueue k after
      took = gpu_takes_refines v w.taken (omega arith)

      spec :
          (map_contents k (try_push_cqe after c) ≡ offer r.cq_entries (contents k after) c)
          × Each (IsQueue k) (try_push_cqe after c)
      spec = try_push_cqe_refines took.1 c

      full :
          try_push_cqe after c ≡ none
          → (w.taken ≡ 0)
            × (drop w.taken (contents k r) ≡ contents k r)
            × (length (contents k r) ≡ 2 ^ k)
      full e =
          full_untouched k w.taken (contents k r) (omega arith) (omega (arith, length-contents v)) (
            rw (← took.0, ← v.entries)
              (offer-none r.cq_entries (contents k after) c (sym spec.0 ∙ ap (map_contents k) e)))

      go :
          (o : Option Ring) (stop : Bool)
          → try_push_cqe after c ≡ o
          → w.stop ≡ stop
          → Ends k (contents k r) c (w ∷ ws) (settle o stop after (push_cqe ws after c))
      go (some r'') stop e s = (
        subst (Each (IsQueue k)) e spec.1,
        (
          w.taken,
          omega arith,
          offer-some r.cq_entries (contents k after) (contents k r'') c
                (sym spec.0 ∙ ap (map_contents k) e)
              ∙ ap (λ q. q ++ (c ∷ [])) took.0,
        ),
      )
      go none true e s = let f = full e in (took.1, took.0 ∙ f.1, f.2, inl s)
      go none false e s =
          let f = full e in
          let same = took.0 ∙ f.1 in
          Ends-later k (contents k r) c w ws f.0 (push_cqe ws after c) (
            subst (λ q. Ends k q c ws (push_cqe ws after c)) same
              (later took.1 (rw same (omega arith))))

-- `push_cqe`, while the GPU takes no more completions than there are: it posts the completion once,
-- behind the ones that the GPU has left; it gives the completion up only in a round where the
-- thread has to stop, and then the ring is full and as it was; and it still waits only if the GPU
-- took nothing in any round.
pub push_cqe-Ends :
    (k : ℕ) (ws : List Round) (r : Ring) (c : Cqe)
    → IsQueue k r
    → demand ws ≤ length (contents k r)
    → Ends k (contents k r) c ws (push_cqe ws r c)
unfolding push_cqe
push_cqe-Ends k [] r c v d = (v, refl, tt)
push_cqe-Ends k (w ∷ ws) r c v d =
    round-Ends k w ws r c v d (push_cqe-Ends k ws (gpu_takes w.taken r) c)
      (try_push_cqe (gpu_takes w.taken r) c) w.stop refl refl
