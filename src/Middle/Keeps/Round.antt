-- ===== src/Middle/Keeps/Round.antt =====
-- One round of `co_flush_issue`: a run gets its page, and the read's outcome settles it.
use gpu_fpga_dma.Base.{
  ℕ, ◌+◌, ◌-◌, ◌≡◌, refl, ap, ◌∙◌, List, [], arith, length, ◌==◌, ltb, ◌||◌, if◌then◌else◌, if-both,
  Bool-cases, inl, inr,
}
use gpu_fpga_dma.Shard.{Shard, Ent}
use gpu_fpga_dma.Shard.Chain.{occ}
use gpu_fpga_dma.Shard.Pools.Inv.{flying}
use gpu_fpga_dma.Shard.Pools.Account.{aloft, Account, restore}
use gpu_fpga_dma.Middle.{Params, Ops, Mid, Stats, Issued, accepted, again, refused}
use gpu_fpga_dma.Middle.Issue.{
  Next, stop, go_on, settle_read, fill_page, give_back, deliver_page, issue_run, map_backend,
}
use gpu_fpga_dma.Middle.Keeps.Join.{wants, also}
use gpu_fpga_dma.Middle.Keeps.Fill.{Posed, fill_page_lem}
use gpu_fpga_dma.Middle.Keeps.Back.{
  Posts, give_back_lem, give_back_rest, page_due, all_due, deliver_page-Posts,
}

-- A step from shard `s` to `m`: the pools stay in order, each request is with its waiters or
-- posted as often as `n` says, and the rest of the shard is that of `s`.
pub record Moved {E : Type 0} (p : Params) (posted : E → ℕ → ℕ) (s : Shard) (m : Mid E) (n : ℕ → ℕ)
    : Type 0 where
  pub waits : ℕ → ℕ
  pub account : Account p.pend_cap p.warena_cap m.shard [] waits
  pub balance : (r : ℕ) → waits r + posted m.env r ≡ n r
  pub rest : restore s m.shard ≡ s

-- What a round of the loop must do: stop with nothing moved, or go on with the run moved.
abbrev pub Round :
    {E : Type 0} → Params → (E → ℕ → ℕ) → Shard → (ℕ → ℕ) → List Ent → Next E → Type 0
Round p posted s n run (stop m) = Moved p posted s m n
Round p posted s n run (go_on m) = Moved p posted s m (also n run)

module _ {E : Type 0} (ops : Ops E) (p : Params) (posted : E → ℕ → ℕ) (law : Posts ops posted)
    (st : Stats) (env : E) (n : ℕ → ℕ) (s : Shard) (out : ℕ × Shard) (run : List Ent)
    (waits : ℕ → ℕ) (v : Posed p.pend_cap p.warena_cap s out run [] waits)
    (before : (r : ℕ) → waits r + posted env r ≡ n r) where
  stays :
      (i : ℕ)
      → occ i [] + (if out.0 == i then 1 else 0)
        ≡ occ i [] + (if out.0 == i then flying (out.1.pend out.0) else 0)
  stays i = ground (arith, v.flight)

  due : (r : ℕ) → page_due p v.account out.0 v.below v.taken r ≡ wants r run
  due r =
      all_due p v.account out.0 v.below v.taken (aloft out.0 v.account.pools v.flight).2 r
      ∙ v.mine r

  again_lem : Moved p posted s (record { shard = give_back p out.1 out.0; stats = st; env = env }) n
  again_lem = record {
    waits = λ r. also waits run r - page_due p v.account out.0 v.below v.taken r;
    account = give_back_lem p v.account out.0 v.below v.taken [] stays;
    balance = λ r. ground (arith, before r, v.mine r, due r);
    rest = ap (restore s) (give_back_rest p v.account out.0 v.below v.taken [] stays) ∙ v.rest;
  }

  done_lem :
      (st' : Stats) (status : ℕ)
      → Moved p posted s
          (record {
            shard = give_back p out.1 out.0;
            stats = st';
            env = deliver_page ops p out.1 out.0 env status;
          })
          (also n run)
  done_lem st' status = record {
    waits = λ r. also waits run r - page_due p v.account out.0 v.below v.taken r;
    account = give_back_lem p v.account out.0 v.below v.taken [] stays;
    balance = λ r. omega (
      arith,
      before r,
      v.mine r,
      due r,
      deliver_page-Posts p v.account out.0 v.below v.taken ops posted law env status r,
    );
    rest = ap (restore s) (give_back_rest p v.account out.0 v.below v.taken [] stays) ∙ v.rest;
  }

  pub settle_read_lem :
      (rc : Issued) → Round p posted s n run (settle_read ops p rc out.1 st env out.0)
  unfolding settle_read
  settle_read_lem again = again_lem
  settle_read_lem refused = done_lem _ 1
  settle_read_lem accepted =
      if-both (Round p posted s n run) ops.sync _ _ (λ _. done_lem st 0)
        (λ _. record {
          waits = also waits run;
          account = v.account;
          balance = λ r. omega (arith, before r);
          rest = v.rest;
        })

module _ {E : Type 0} (ops : Ops E) (p : Params) (posted : E → ℕ → ℕ) (law : Posts ops posted)
    (now : ℕ) (n : ℕ → ℕ) where
  pub issue_run_lem :
      (m : Mid E) (waits : ℕ → ℕ) (tag : ℕ) (run : List Ent)
      → Account p.pend_cap p.warena_cap m.shard [] waits
      → ((r : ℕ) → waits r + posted m.env r ≡ n r)
      → Round p posted m.shard n run (issue_run ops p now m tag run)
  unfolding issue_run
  issue_run_lem m waits tag run v before =
      elim (Bool-cases ((length (m.shard).pend_free == 0) || ltb (m.shard).wfree_n (length run))) [
        | inl e ↦
            rw (e, issue_run) (record { waits = waits; account = v; balance = before; rest = refl })
        | inr e ↦
            rw (e, issue_run)
              (settle_read_lem ops p posted law _ _ n m.shard
                (fill_page p m.shard tag (map_backend p tag).0 now run) run waits
                (fill_page_lem p v tag (map_backend p tag).0 now run (ground arith) (ground arith))
                (λ r. ap (λ k. waits r + k) (law.read_posts m.env _ r) ∙ before r) _)
      ]
