-- ===== src/Ring/Fifo/Steps.antt =====
-- Every access keeps the invariant of the request ring.
use gpu_fpga_dma.Base.{
  ℕ, ◌+◌, ◌%◌, ◌^◌, ◌≤◌, ◌<◌, ◌≡◌, refl, sym, ap, ap₂, ◌∙◌, ◌⊎◌, inl, inr, some, true, [], ◌∷◌,
  ◌++◌, arith,
}
use gpu_fpga_dma.Base.Bits.{one-le-pow}
use gpu_fpga_dma.Ring.Queue.{cell, pow-le}
use gpu_fpga_dma.Ring.{
  Req, push_cell, rq_cell, pop_read, pop_release, push_reserve, push_ready, push_write,
  push_publish,
}
use gpu_fpga_dma.Ring.Producers.{
  Phase, unborn, spinning, ready, written, returned, System, set_phase, begin_call, end_spin,
  write_payload, publish, copy_cell, free_cell, Step, reserve, enter, write, commit, copy, release,
  init, init_ring,
}
use native.Mathlib.Decide.{dec_lt, ℕ_discrete}
use native.Mathlib.Nat.{mod-eq_of_lt, add-mod_right}
use native.Mathlib.Numerals.{add-one}
use gpu_fpga_dma.Ring.Fifo.Window.{
  Inv, requests, requests_cong, wanted, is_paid, cell_ne, rq_cell-cell, push_cell-cell, begun,
  not_past, not_early, spin_ends,
}

pub init-Inv : (k : ℕ) → 1 ≤ k → k ≤ 31 → Inv k (init (2 ^ k))
unfolding init init_ring requests
init-Inv k lo hi = record {
  two_cells = lo;
  narrow = hi;
  entries = refl;
  mask = refl;
  head = refl;
  tail = refl;
  behind = omega arith;
  few = omega arith;
  fresh = λ j _. refl;
  pos = λ j lt. elim lt [ ];
  past = λ j lt. elim lt [ ];
  early = λ j _ lt. elim lt [ ];
  cells = λ j a b. same j (omega arith);
  paid = λ j a b p. cc;
  copying = λ q e. cc;
  got = refl;
}
  where
    same : (j : ℕ) → j < 2 ^ k → cell k j ≡ j % 2 ^ 32
    same j lt =
        let narrow : j < 2 ^ 32 = omega (arith, pow-le k 31 hi) in
        mod-eq_of_lt lt ∙ sym (mod-eq_of_lt narrow)

requests-set_phase :
    (s : System) (i : ℕ) (p : Phase) (n : ℕ) → requests (set_phase s i p) n ≡ requests s.calls n
requests-set_phase s i p n = requests_cong _ _ n (λ j _. ground arith)

wanted_next : (p : Phase) (j : ℕ) → wanted p j ≡ (j + 1) % 2 ^ 32 → p ≡ returned
wanted_next returned j e = refl
wanted_next _ j e = absurd (omega arith)

module _ {k : ℕ} {s : System} (v : Inv k s) where
  reserve-Inv : (q : Req) → s.started + 1 < s.n_taken + 2 ^ 32 → Inv k (begin_call s q)
  unfolding push_reserve
  reserve-Inv q room = record {
    two_cells = v.two_cells;
    narrow = v.narrow;
    entries = v.entries;
    mask = v.mask;
    head = omega (arith, v.head);
    tail = v.tail;
    behind = omega (arith, v.behind);
    few = omega arith;
    fresh = λ j le. ground (arith, v.fresh j);
    pos = λ j lt. ground (arith, v.pos j, v.head);
    past = λ j lt. ground (arith, v.past j, v.behind);
    early = λ j a b. ground (arith, v.early j);
    cells = λ j a b. ground (arith, v.cells j, v.fresh j);
    paid = λ j a b p. ground (arith, v.paid j, v.fresh j);
    copying = λ q e. ground (arith, v.copying q, v.behind, v.fresh s.n_taken);
    got = v.got ∙ requests_cong _ _ s.n_taken (λ j lt. ground (arith, v.behind));
  }

  enter-Inv :
      (i : ℕ)
      → (s.calls i).phase ≡ spinning
      → push_ready s.ring (s.calls i).pos ≡ true
      → Inv k (end_spin s i)
  unfolding push_ready
  enter-Inv i e r = record {
    two_cells = v.two_cells;
    narrow = v.narrow;
    entries = v.entries;
    mask = v.mask;
    head = v.head;
    tail = v.tail;
    behind = v.behind;
    few = v.few;
    fresh = λ j le. ground (arith, v.fresh j, begun_i);
    pos = λ j lt. ground (arith, v.pos j);
    past = λ j lt. ground (arith, v.past j);
    early = λ j a b. ground (arith, v.early j, here);
    cells = λ j a b. ground (arith, v.cells j);
    paid = λ j a b p. ground (arith, v.paid j);
    copying = λ q c. ground (arith, v.copying q);
    got = v.got ∙ sym (requests-set_phase s i ready s.n_taken);
  }
    where
      begun_i : i < s.started
      begun_i = begun v i spinning e (λ q. cc)

      word : s.ring.rq_seq (cell k i) ≡ i % 2 ^ 32
      word = ground (arith, push_cell-cell v i begun_i, v.pos i begun_i)

      here : i < s.n_taken + 2 ^ k
      here = spin_ends v i (not_past v i spinning e (λ q. cc)) begun_i word

  write-Inv : (i : ℕ) → (s.calls i).phase ≡ ready → Inv k (write_payload s i)
  unfolding push_write
  write-Inv i e = record {
    two_cells = v.two_cells;
    narrow = v.narrow;
    entries = v.entries;
    mask = v.mask;
    head = v.head;
    tail = v.tail;
    behind = v.behind;
    few = v.few;
    fresh = λ j le. ground (arith, v.fresh j, begun_i);
    pos = λ j lt. ground (arith, v.pos j);
    past = λ j lt. ground (arith, v.past j);
    early = λ j a b. ground (arith, v.early j, here);
    cells = λ j a b. ground (arith, v.cells j);
    paid = λ j a b p. ground (arith, v.paid j, cell_ne k s.n_taken i j from here, at);
    copying = λ q c. ground (arith, v.copying q);
    got = v.got ∙ sym (requests-set_phase s i written s.n_taken);
  }
    where
      begun_i : i < s.started
      begun_i = begun v i ready e (λ q. cc)

      from : s.n_taken ≤ i
      from = not_past v i ready e (λ q. cc)

      here : i < s.n_taken + 2 ^ k
      here = not_early v i ready e (λ q. cc) (λ q. cc)

      at : push_cell s.ring (s.calls i).pos ≡ cell k i
      at = push_cell-cell v i begun_i

  commit-Inv : (i : ℕ) → (s.calls i).phase ≡ written → Inv k (publish s i)
  unfolding push_publish
  commit-Inv i e = record {
    two_cells = v.two_cells;
    narrow = v.narrow;
    entries = v.entries;
    mask = v.mask;
    head = v.head;
    tail = v.tail;
    behind = v.behind;
    few = v.few;
    fresh = λ j le. ground (arith, v.fresh j, begun_i);
    pos = λ j lt. ground (arith, v.pos j);
    past = λ j lt. ground (arith, v.past j);
    early = λ j a b. ground (arith, v.early j, here);
    cells =
        λ j a b. ground (arith, v.cells j, cell_ne k s.n_taken i j from here, at, v.pos i begun_i);
    paid = λ j a b p. ground (arith, v.paid j);
    copying = λ q c. ground (arith, v.copying q);
    got = v.got ∙ sym (requests-set_phase s i returned s.n_taken);
  }
    where
      begun_i : i < s.started
      begun_i = begun v i written e (λ q. cc)

      from : s.n_taken ≤ i
      from = not_past v i written e (λ q. cc)

      here : i < s.n_taken + 2 ^ k
      here = not_early v i written e (λ q. cc) (λ q. cc)

      at : push_cell s.ring (s.calls i).pos ≡ cell k i
      at = push_cell-cell v i begun_i

  copy-Inv : (q : Req) → pop_read s.ring ≡ some q → Inv k (copy_cell s q)
  unfolding pop_read
  copy-Inv q e = record {
    two_cells = v.two_cells;
    narrow = v.narrow;
    entries = v.entries;
    mask = v.mask;
    head = v.head;
    tail = v.tail;
    behind = v.behind;
    few = v.few;
    fresh = v.fresh;
    pos = v.pos;
    past = v.past;
    early = v.early;
    cells = v.cells;
    paid = v.paid;
    copying = λ q' c. ground (
      arith,
      ready_word,
      wanted_next (s.calls s.n_taken).phase s.n_taken,
      at,
      v.tail,
      v.paid s.n_taken (omega arith) (omega (arith, one-le-pow k)),
    );
    got = v.got;
  }
    where
      at : rq_cell s.ring ≡ cell k s.n_taken
      at = rq_cell-cell v

      ready_word : s.ring.rq_seq (cell k s.n_taken) ≡ wanted (s.calls s.n_taken).phase s.n_taken
      ready_word = v.cells s.n_taken (omega arith) (omega (arith, one-le-pow k))

  release-Inv : (q : Req) → s.copied ≡ some q → Inv k (free_cell s q)
  unfolding pop_release requests
  release-Inv q e = record {
    two_cells = v.two_cells;
    narrow = v.narrow;
    entries = v.entries;
    mask = v.mask;
    head = v.head;
    tail = omega (arith, v.tail);
    behind = omega (arith, freed);
    few = omega (arith, v.few);
    fresh = v.fresh;
    pos = v.pos;
    past = λ j lt. ground (arith, v.past j, (v.copying q e).0);
    early = λ j a b. v.early j (omega arith) b;
    cells = λ j a b. next_cells j a b;
    paid = λ j a b p. next_paid j a b p;
    copying = λ q' c. cc;
    got =
        ap₂ (λ xs x. xs ++ (x ∷ [])) v.got (v.copying q e).1
        ∙ ap (requests s.calls) (sym (add-one s.n_taken));
  }
    where
      freed : s.n_taken < s.started
      freed = begun v s.n_taken returned (v.copying q e).0 (λ c. cc)

      at : rq_cell s.ring ≡ cell k s.n_taken
      at = rq_cell-cell v

      lap : cell k (s.n_taken + 2 ^ k) ≡ cell k s.n_taken
      lap = add-mod_right s.n_taken (2 ^ k)

      -- The position one lap on, which now owns the freed cell, has not passed its spin.
      waiting :
          ((s.calls (s.n_taken + 2 ^ k)).phase ≡ unborn)
          ⊎ ((s.calls (s.n_taken + 2 ^ k)).phase ≡ spinning)
      waiting = elim (dec_lt (s.n_taken + 2 ^ k) s.started) [
        | yes lt ↦ inr (v.early (s.n_taken + 2 ^ k) (omega arith) lt)
        | no ge ↦ inl (v.fresh (s.n_taken + 2 ^ k) (omega arith))
      ]

      next_cells :
          (j : ℕ)
          → s.n_taken + 1 ≤ j
          → j < s.n_taken + 1 + 2 ^ k
          → (free_cell s q).ring.rq_seq (cell k j) ≡ wanted (s.calls j).phase j
      next_cells j a b = elim (ℕ_discrete j (s.n_taken + 2 ^ k)) [
        | yes last ↦ rw last (ground (arith, at, lap, waiting, v.tail, v.entries))
        | no other ↦ ground (
          arith,
          at,
          v.cells j (omega arith) (omega arith),
          cell_ne k s.n_taken s.n_taken j (omega arith) (omega (arith, one-le-pow k)) (omega arith)
              (omega arith),
        )
      ]

      next_paid :
          (j : ℕ)
          → s.n_taken + 1 ≤ j
          → j < s.n_taken + 1 + 2 ^ k
          → is_paid (s.calls j).phase ≡ true
          → s.ring.rq (cell k j) ≡ (s.calls j).req
      next_paid j a b p = elim (ℕ_discrete j (s.n_taken + 2 ^ k)) [
        | yes last ↦ absurd (ground (arith, waiting, ap (λ i. (s.calls i).phase) last))
        | no other ↦ v.paid j (omega arith) (omega arith) p
      ]

pub Step-Inv : {k : ℕ} {s t : System} → Inv k s → Step s t → Inv k t
Step-Inv v (reserve q room) = reserve-Inv v q room
Step-Inv v (enter j e r) = enter-Inv v j e r
Step-Inv v (write j e) = write-Inv v j e
Step-Inv v (commit j e) = commit-Inv v j e
Step-Inv v (copy q _ e) = copy-Inv v q e
Step-Inv v (release q e) = release-Inv v q e
