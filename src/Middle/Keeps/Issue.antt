-- ===== src/Middle/Keeps/Issue.antt =====
-- `co_flush_issue`: every entry of the window waits, is completed, or stays in the window.
use gpu_fpga_dma.Base.{
  ℕ, zero, suc, ◌+◌, ◌≡◌, refl, sym, ap, ◌∙◌, List, [], ◌∷◌, arith, length, ◌++◌, ◌==◌, false,
  subst, drop, take, if-both, ==→eq, Bool-cases, inl, inr,
}
use gpu_fpga_dma.Shard.{Shard, Ent}
use gpu_fpga_dma.Shard.Chain.{total}
use gpu_fpga_dma.Shard.Pools.Account.{Account, elsewhere}
use gpu_fpga_dma.Middle.{Params, Ops, Mid, Stats}
use gpu_fpga_dma.Middle.Issue.{
  Next, stop, go_on, issue_run, issue_from, flush_issue, run_of, same_tag,
}
use gpu_fpga_dma.Middle.Keeps.Join.{wants, also}
use gpu_fpga_dma.Middle.Keeps.Back.{Posts}
use gpu_fpga_dma.Middle.Keeps.Round.{Moved, Round, issue_run_lem}

-- Of request `r`, how many entries of the window are not issued yet.
abbrev pub unissued : Shard → ℕ → ℕ
unissued s r = wants r (drop s.issue_pos s.win)

-- Of request `r`, how many entries stand in the buckets.
abbrev pub binned : Params → Shard → ℕ → ℕ
binned p s r = total p.n_buckets (λ b. wants r (s.bkt b))

-- The books of a shard: its pools are in order, and each request `r` is in the window, in a bucket,
-- with its waiters or posted, `n r` times in all.
pub record Books {E : Type 0} (p : Params) (posted : E → ℕ → ℕ) (n : ℕ → ℕ) (m : Mid E)
    : Type 0 where
  pub waits : ℕ → ℕ
  pub account : Account p.pend_cap p.warena_cap m.shard [] waits
  pub balance : (r : ℕ) → unissued m.shard r + binned p m.shard r + waits r + posted m.env r ≡ n r

pub wants-append : (r : ℕ) (xs ys : List Ent) → wants r (xs ++ ys) ≡ wants r xs + wants r ys
wants-append r [] ys = omega arith
wants-append r (x ∷ xs) ys = omega (arith, wants-append r xs ys)

take-drop-len : (k : ℕ) (xs : List Ent) → take k xs ++ drop (length (take k xs)) xs ≡ xs
take-drop-len zero xs = refl
take-drop-len (suc k) [] = refl
take-drop-len (suc k) (x ∷ xs) = ap (λ t. x ∷ t) (take-drop-len k xs)

-- The run is what the window starts with.
pub run_of-prefix :
    (p : Params) (xs : List Ent) → run_of p xs ++ drop (length (run_of p xs)) xs ≡ xs
unfolding run_of
run_of-prefix p [] = refl
run_of-prefix p (x ∷ xs) = elim (Bool-cases p.no_merge) [
  | inl e ↦ rw (e, run_of) refl
  | inr e ↦ rw (e, run_of) (ap (λ t. x ∷ t) (take-drop-len (same_tag x.line_tag xs) xs))
]

abbrev no_ents : List Ent
no_ents = []

drop-nil : (k : ℕ) → drop k no_ents ≡ []
drop-nil zero = refl
drop-nil (suc k) = refl

drop-drop : (i k : ℕ) (xs : List Ent) → drop (i + k) xs ≡ drop k (drop i xs)
drop-drop zero k xs = ap (λ j. drop j xs) (omega arith)
drop-drop (suc i) k [] =
    ap (λ j. drop j []) {x = suc i + k} {y = suc (i + k)} (omega arith) ∙ sym (drop-nil k)
drop-drop (suc i) k (x ∷ xs) =
    ap (λ j. drop j (x ∷ xs)) {x = suc i + k} {y = suc (i + k)} (omega arith) ∙ drop-drop i k xs

next-both :
    {E : Type 0} (P : Mid E → Type 0) (nx : Next E) (g : Mid E → Mid E)
    → ((m : Mid E) → nx ≡ stop m → P m)
    → ((m : Mid E) → nx ≡ go_on m → P (g m))
    → P (elim nx [ stop m ↦ m | go_on m ↦ g m ])
next-both P (stop m) g a b = a m refl
next-both P (go_on m) g a b = b m refl

module _ {E : Type 0} (ops : Ops E) (p : Params) (posted : E → ℕ → ℕ) (law : Posts ops posted)
    (n : ℕ → ℕ) (now : ℕ) where
  -- What the loop keeps: the books and the window.
  abbrev Kept : Mid E → Mid E → Type 0
  Kept m m' = Books p posted n m' × ((m'.shard).win ≡ (m.shard).win)

  stop_lem :
      (m m' : Mid E) (v : Books p posted n m)
      → Moved p posted m.shard m' (λ r. v.waits r + posted m.env r)
      → Kept m m'
  stop_lem m m' v w = (
    record {
      waits = w.waits;
      account = w.account;
      balance = λ r.
          subst (λ (s : Shard). unissued s r + binned p s r + w.waits r + posted m'.env r ≡ n r)
            (sym w.rest) (omega (arith, v.balance r, w.balance r));
    },
    ap (λ (s : Shard). s.win) w.rest,
  )

  pub go_lem :
      (m m' : Mid E) (v : Books p posted n m) (run : List Ent)
      → run ++ drop (length run) (drop (m.shard).issue_pos (m.shard).win)
        ≡ drop (m.shard).issue_pos (m.shard).win
      → Moved p posted m.shard m' (also (λ r. v.waits r + posted m.env r) run)
      → Kept m
          (record m' { shard = record (m'.shard) { issue_pos = (m.shard).issue_pos + length run } })
  go_lem m m' v run pre w = (
    record {
      waits = w.waits;
      account =
          elsewhere (record (m'.shard) { issue_pos = (m.shard).issue_pos + length run }) w.account;
      balance = λ r.
          subst
            (λ (s : Shard).
              wants r (drop ((m.shard).issue_pos + length run) s.win)
                + binned p s r
                + w.waits r
                + posted m'.env r
              ≡ n r)
            (sym w.rest)
            (rw (drop-drop (m.shard).issue_pos (length run) (m.shard).win) (
              omega (
                arith,
                v.balance r,
                w.balance r,
                ap (wants r) pre,
                wants-append r run (drop (length run) (drop (m.shard).issue_pos (m.shard).win)),
              )));
    },
    ap (λ (s : Shard). s.win) w.rest,
  )

  round_lem :
      (f : ℕ) (m : Mid E)
      → ((m' : Mid E) → Books p posted n m' → Kept m' (issue_from ops p f now m'))
      → (rest : List Ent) → drop (m.shard).issue_pos (m.shard).win ≡ rest
      → Books p posted n m
      → Kept m (issue_from ops p (suc f) now m)
  unfolding issue_from
  round_lem f m ih [] e v = rw (e, issue_from) (v, refl)
  round_lem f m ih (x ∷ xs) e v =
      let run = run_of p (drop (m.shard).issue_pos (m.shard).win) in
      let goes =
        issue_run_lem ops p posted law now (λ r. v.waits r + posted m.env r) m v.waits x.line_tag
          run v.account (λ r. refl) in
      rw (e, issue_from)
        (next-both (Kept m) (issue_run ops p now m x.line_tag run)
          (λ m'. issue_from ops p f now (record m' {
            shard = record (m'.shard) { issue_pos = (m.shard).issue_pos + length run };
          }))
          (λ m' q. stop_lem m m' v (subst (Round p posted m.shard _ run) q goes))
          (λ m' q.
            let kept =
              go_lem m m' v run (run_of-prefix p (drop (m.shard).issue_pos (m.shard).win))
                (subst (Round p posted m.shard _ run) q goes) in
            let more = ih _ kept.0 in (more.0, more.1 ∙ kept.1)))

  issue_from_lem : (f : ℕ) (m : Mid E) → Books p posted n m → Kept m (issue_from ops p f now m)
  unfolding issue_from
  issue_from_lem zero m v = (v, refl)
  issue_from_lem (suc f) m v =
      round_lem f m (issue_from_lem f) (drop (m.shard).issue_pos (m.shard).win) refl v

module _ {E : Type 0} (ops : Ops E) (p : Params) (posted : E → ℕ → ℕ) (law : Posts ops posted)
    (n : ℕ → ℕ) where
  drop-all : (xs : List Ent) → drop (length xs) xs ≡ []
  drop-all [] = refl
  drop-all (x ∷ xs) = drop-all xs

  ticked :
      (m : Mid E)
      → Books p posted n m
      → Books p posted n (record m { env = (ops.local_clock m.env).1 })
  ticked m v = record {
    waits = v.waits;
    account = v.account;
    balance = λ r. omega (arith, v.balance r, law.clock_posts m.env r);
  }

  whole :
      (m : Mid E) (st : Stats)
      → (m.shard).issue_pos ≡ length (m.shard).win
      → Books p posted n m
      → Books p posted n (record m {
        shard = record (m.shard) { win = []; win_sorted = false; issue_pos = 0 };
        stats = st;
      })
  whole m st e v = record {
    waits = v.waits;
    account =
        elsewhere (record (m.shard) { win = []; win_sorted = false; issue_pos = 0 }) v.account;
    balance = λ r. omega (
      arith,
      v.balance r,
      ap (wants r) (ap (λ i. drop i (m.shard).win) e ∙ drop-all (m.shard).win),
    );
  }

  -- `co_flush_issue` keeps the books: if the pools are in order and each request `r` is `n r` times in
  -- the window, in a bucket, with an undelivered waiter or posted, then so it is afterwards, whatever
  -- the backend answers to each read and whether or not the credits last for the window.
  pub flush_issue-Books : (m : Mid E) → Books p posted n m → Books p posted n (flush_issue ops p m)
  unfolding flush_issue
  flush_issue-Books m v =
      let len = length (m.shard).win in
      let now = (ops.local_clock m.env).0 in
      let m0 : Mid E = record m { env = (ops.local_clock m.env).1 } in
      let kept = issue_from_lem ops p posted law n now len m0 (ticked m v) in
      let m' = issue_from ops p len now m0 in
      if-both (Books p posted n) ((m'.shard).issue_pos == len) _ _
        (λ e. whole m' _ (==→eq (m'.shard).issue_pos len e ∙ sym (ap length kept.1)) kept.0)
        (λ _. kept.0)
