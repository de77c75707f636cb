-- ===== src/Middle/Keeps/Fuel.antt =====
-- The fuel of the issue loop is enough: each round that goes on leaves fewer entries.
use gpu_fpga_dma.Base.{
  ℕ, zero, suc, ◌+◌, ◌≤◌, ◌≡◌, refl, ap, ◌∙◌, List, [], ◌∷◌, arith, length, drop, length-drop,
  subst,
}
use gpu_fpga_dma.Shard.{Ent}
use gpu_fpga_dma.Middle.{Params, Ops, Mid}
use gpu_fpga_dma.Middle.Issue.{Next, stop, go_on, issue_run, issue_from, run_of}
use gpu_fpga_dma.Middle.Keeps.Back.{Posts}
use gpu_fpga_dma.Middle.Keeps.Round.{Round, issue_run_lem}
use gpu_fpga_dma.Middle.Keeps.Issue.{Books, go_lem, run_of-prefix}

next-same :
    {E : Type 0} (nx : Next E) (g h : Mid E → Mid E)
    → ((m : Mid E) → nx ≡ go_on m → g m ≡ h m)
    → (elim nx [ stop m ↦ m | go_on m ↦ g m ]) ≡ (elim nx [ stop m ↦ m | go_on m ↦ h m ])
next-same (stop m) g h same = refl
next-same (go_on m) g h same = same m refl

run_not_empty : (p : Params) (x : Ent) (xs : List Ent) → 1 ≤ length (run_of p (x ∷ xs))
unfolding run_of
run_not_empty p x xs = omega arith

module _ {E : Type 0} (ops : Ops E) (p : Params) (posted : E → ℕ → ℕ) (law : Posts ops posted)
    (n : ℕ → ℕ) (now : ℕ) where
  -- What the window holds from the position of the loop on.
  abbrev left : Mid E → List Ent
  left m = drop (m.shard).issue_pos (m.shard).win

  abbrev OneMore : ℕ → Mid E → Type 0
  OneMore f m = issue_from ops p (suc f) now m ≡ issue_from ops p f now m

  enough_round :
      (f : ℕ) (m : Mid E)
      → ((m' : Mid E) → Books p posted n m' → length (left m') ≤ f → OneMore f m')
      → (rest : List Ent) → left m ≡ rest
      → Books p posted n m
      → length rest ≤ suc f
      → OneMore (suc f) m
  unfolding issue_from
  enough_round f m ih [] e v fits = rw (e, issue_from) refl
  enough_round f m ih (x ∷ xs) e v fits =
      let run = run_of p (left m) in
      let goes =
        issue_run_lem ops p posted law now (λ r. v.waits r + posted m.env r) m v.waits x.line_tag
          run v.account (λ r. refl) in
      rw (e, issue_from)
        (next-same (issue_run ops p now m x.line_tag run)
          (λ m'. issue_from ops p (suc f) now (record m' {
            shard = record (m'.shard) { issue_pos = (m.shard).issue_pos + length run };
          }))
          (λ m'. issue_from ops p f now (record m' {
            shard = record (m'.shard) { issue_pos = (m.shard).issue_pos + length run };
          }))
          (λ m' q.
            let kept =
              go_lem ops p posted law n now m m' v run (run_of-prefix p (left m))
                (subst (Round p posted m.shard _ run) q goes) in
            ih _ kept.0 (
              omega (
                arith,
                length-drop ((m.shard).issue_pos + length run) (m'.shard).win,
                ap length kept.1,
                length-drop (m.shard).issue_pos (m.shard).win,
                ap length e,
                ap (λ t. length (run_of p t)) e,
                run_not_empty p x xs,
                fits,
              ))))

  enough_none : (m : Mid E) (rest : List Ent) → left m ≡ rest → length rest ≤ 0 → OneMore 0 m
  unfolding issue_from
  enough_none m [] e fits = rw (e, issue_from) refl
  enough_none m (x ∷ xs) e fits = absurd (omega arith)

  enough_one : (f : ℕ) (m : Mid E) → Books p posted n m → length (left m) ≤ f → OneMore f m
  enough_one zero m v fits = enough_none m (left m) refl fits
  enough_one (suc f) m v fits = enough_round f m (enough_one f) (left m) refl v fits

  -- With fuel for the entries that are left, more fuel changes nothing: the issue loop of
  -- `co_flush_issue` has ended by itself, from any state whose books stand.
  pub issue_from-enough :
      (f more : ℕ) (m : Mid E)
      → Books p posted n m
      → length (drop (m.shard).issue_pos (m.shard).win) ≤ f
      → issue_from ops p (more + f) now m ≡ issue_from ops p f now m
  issue_from-enough f zero m v fits = ap (λ g. issue_from ops p g now m) (omega arith)
  issue_from-enough f (suc more) m v fits =
      ap (λ g. issue_from ops p g now m) {x = suc more + f} {y = suc (more + f)} (omega arith)
      ∙ enough_one (more + f) m v (omega (arith, fits))
      ∙ issue_from-enough f more m v fits
