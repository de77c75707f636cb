-- ===== src/Direct/Poll.antt =====
-- All moves on a queue pair, and the loop of `direct_poll`: control/nvmevirt/backend_direct.c.
use gpu_fpga_dma.Base.{
  ℕ, zero, suc, ◌+◌, ◌-◌, ◌%◌, ◌^◌, ◌≤◌, ◌<◌, ◌≡◌, ◌≢◌, ◌↔◌, refl, ap, true, Option, none, some,
  List, [], ◌∷◌, ltb, ◌==◌, if◌then◌else◌, Array, update, length, arith,
}
use gpu_fpga_dma.Shard.Chain.{occ}
use gpu_fpga_dma.Middle.{Bread, again}
use gpu_fpga_dma.Direct.{Host, Lane, Dqp, issue_qp, take_cid, map_read, advance, cqe_ready, eio}
use gpu_fpga_dma.Direct.Setup.{Dctrl, fresh_qp, count_down}
use gpu_fpga_dma.Direct.Books.{World, Books, Posted, Step, Run, issue, post, take, rest, on}
use gpu_fpga_dma.Direct.Books.Moves.{post-Books}
use gpu_fpga_dma.Direct.Books.Own.{issue-Books, take-Books}

-- What the driver reports for a posted completion: the cookie of its command, and 0 or -EIO.
abbrev pub told : Array ℕ → Posted → ℕ × ℕ
told f (cid, code) = (f cid, if code == 0 then 0 else eio)

occ-count_down : (c n : ℕ) → occ c (count_down n) ≡ (if ltb c n then 1 else 0)
unfolding count_down
occ-count_down c zero = ground arith
occ-count_down c (suc n) = ground (arith, occ-count_down c n)

length-count_down : (n : ℕ) → length (count_down n) ≡ n
unfolding count_down
length-count_down zero = refl
length-count_down (suc n) = ap suc (length-count_down n)

module _ {E : Type 0} where
  -- A queue pair that `qp_create` has made, with a device that has just created its queues.
  abbrev pub new_world : Dctrl → ℕ → ℕ → ℕ → ℕ → E → World E
  new_world c sh sq_dma cq_dma others env = record {
    lane = record { q = fresh_qp c sh sq_dma cq_dma; inflight = others % 2 ^ 32; env = env };
    dev_tail = 0;
    dev_phase = 1;
    held = [];
    posted = [];
    asked = [];
    reported = [];
  }

  pub new_world-Books :
      (c : Dctrl) (sh sq_dma cq_dma others : ℕ) (env : E)
      → 2 ≤ c.io_qd
      → Books c.io_qd others (new_world c sh sq_dma cq_dma others env)
  unfolding fresh_qp
  new_world-Books c sh sq_dma cq_dma others env deep = record {
    uniq = λ k. omega (arith, occ-count_down k (c.io_qd - 1));
    size = omega (arith, length-count_down (c.io_qd - 1));
    deep = deep;
    head = omega (arith, deep);
    phase = omega arith;
    tail = ground (arith, deep);
    dev_phase = ground (arith, deep);
    lines = λ i cid code e. cc;
    stale = λ i ge lt bad. ground arith;
    counted = omega arith;
    books = λ k. refl;
  }

  module _ (h : Host E) (qd page others : ℕ) (short : qd < 2 ^ 16) where
    step-Books : {w t : World E} → Step h qd page w t → Books qd others w → Books qd others t
    step-Books {w} (issue rd) v = issue-Books h qd page others short w rd v
    step-Books {w} (post xs ys cid code e) v = post-Books qd others w xs ys cid code e v
    step-Books {w} (take ready) v = take-Books h qd page others short w ready v

    pub Run-Books : {w t : World E} → Run h qd page w t → Books qd others w → Books qd others t
    Run-Books rest v = v
    Run-Books (on r st) v = step-Books st (Run-Books r v)

    -- An issue is told to retry exactly when all `qd - 1` command ids are with the device or in the queue.
    pub again_iff_full :
        (w : World E) (rd : Bread)
        → Books qd others w
        → ((issue_qp h qd rd w.lane).0 ≡ again) ↔ (length w.held + length w.posted ≡ qd - 1)
    unfolding issue_qp take_cid map_read
    again_iff_full w rd v = go w.lane.q.free refl
      where
        mapped : (l : Lane E) (c : ℕ) (o : Option ℕ × E) → (map_read h qd rd c l o).0 ≢ again
        mapped l c (none, env) e = cc
        mapped l c (some dma, env) e = cc

        go :
            (fs : List ℕ)
            → w.lane.q.free ≡ fs
            → ((take_cid h qd rd w.lane fs).0 ≡ again) ↔ (length w.held + length w.posted ≡ qd - 1)
        go [] e = (λ _. omega (arith, v.size, ap length e), λ _. refl)
        go (c ∷ cs) e = (
          λ a. absurd (
              mapped
                (record w.lane {
                  q = record w.lane.q {
                    free = cs;
                    cid_cookie = update w.lane.q.cid_cookie c rd.cookie;
                  };
                })
                c (h.dma_map_page w.lane.env rd.spage rd.len) a),
          λ full. absurd (omega (arith, v.size, ap length e)),
        )

-- With the full depth of 65536 the `u16` head never equals the depth, so the phase does not flip: at
-- the end of a lap an entry of that lap is taken for a new one.
pub deepest_rereads :
    (q : Dqp)
    → q.cq_head ≡ 2 ^ 16 - 1
    → (q.cq 0).status % 2 ≡ q.cq_phase
    → cqe_ready (advance (2 ^ 16) q) ≡ true
unfolding advance cqe_ready
deepest_rereads q e old = ground (arith, ap q.cq e)
