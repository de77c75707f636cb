-- ===== src/Direct/Books.antt =====
-- The issuer, the device and the reaper of one queue pair in any order: control/nvmevirt/backend_direct.c.
-- The device keeps its own tail and phase, and posts the commands it holds in any order.
pub mod Moves
pub mod Own
use gpu_fpga_dma.Base.{
  ℕ, zero, suc, ◌+◌, ◌-◌, ◌*◌, ◌%◌, ◌^◌, ◌≤◌, ◌<◌, ◌≡◌, ◌≢◌, Bool, true, false, Option, none, some,
  List, [], ◌∷◌, ◌++◌, map, ltb, ◌==◌, if◌then◌else◌, Array, update, length, get_elem?, drop,
}
use gpu_fpga_dma.Base.Words.{add32}
use gpu_fpga_dma.Shard.Chain.{occ}
use gpu_fpga_dma.Middle.{Bread, Issued, accepted, again, refused}
use gpu_fpga_dma.Direct.{Host, Lane, Dqp, Completion, issue_qp, take_cqe, cqe_ready, flip, eio}

-- A completion in the queue: its command id and its status code.
abbrev pub Posted : Type 0
Posted = ℕ × ℕ

abbrev pub cids : List Posted → List ℕ
cids ps = map (λ (x : Posted). x.0) ps

-- A queue pair with what the device holds and what has been asked and reported.
pub record World (E : Type 0) : Type 0 where
  pub lane : Lane E
  pub dev_tail : ℕ
  pub dev_phase : ℕ
  -- commands that the device holds
  pub held : List ℕ
  -- completions between the reaper's head and the device's tail
  pub posted : List Posted
  -- cookies of the accepted reads, and of the reported ones
  pub asked : List ℕ
  pub reported : List ℕ

-- The `i`-th entry from the head, and the phase that marks it new.
abbrev pub cell_at : ℕ → ℕ → ℕ → ℕ
cell_at qd head i = if ltb (head + i) qd then head + i else head + i - qd

abbrev pub phase_at : ℕ → ℕ → ℕ → ℕ → ℕ
phase_at qd head phase i = if ltb (head + i) qd then phase else 1 - phase

-- How often the commands `cs` carry the cookie `k`.
abbrev pub owed : Array ℕ → ℕ → List ℕ → ℕ
owed f k [] = 0
owed f k (c ∷ cs) = (if f c == k then 1 else 0) + owed f k cs

-- The command id that the next read takes.
abbrev pub claimed : List ℕ → List ℕ
claimed [] = []
claimed (c ∷ cs) = c ∷ []

-- What an accepted read adds to the ghost state.
abbrev pub after_issue : {E : Type 0} → World E → Bread → Issued × Lane E → World E
after_issue w rd (accepted, l) = record w {
  lane = l;
  held = claimed w.lane.q.free ++ w.held;
  asked = rd.cookie ∷ w.asked;
}
after_issue w rd (again, l) = record w { lane = l }
after_issue w rd (refused, l) = record w { lane = l }

-- The device writes the entry at its tail, with its phase, and moves on.
abbrev pub after_post : {E : Type 0} → ℕ → World E → List ℕ → ℕ → ℕ → World E
after_post qd w rest cid code = record w {
  lane = record w.lane {
    q = record w.lane.q {
      cq =
          update w.lane.q.cq w.dev_tail
            (record { result0 = 0; command_id = cid; status = code * 2 + w.dev_phase });
    };
  };
  dev_tail = (if w.dev_tail + 1 == qd then 0 else w.dev_tail + 1);
  dev_phase = (if w.dev_tail + 1 == qd then 1 - w.dev_phase else w.dev_phase);
  held = rest;
  posted = w.posted ++ (cid, code) ∷ [];
}

module _ {E : Type 0} (h : Host E) (qd page : ℕ) where
  abbrev pub after_take : World E → World E
  after_take w = record w {
    lane = (take_cqe h qd page w.lane).1;
    posted = drop 1 w.posted;
    reported = (take_cqe h qd page w.lane).0.0 ∷ w.reported;
  }

  pub data Step (w : World E) : World E → Type 0 where
    issue : (rd : Bread) → Step w (after_issue w rd (issue_qp h qd rd w.lane))
    post :
        (xs ys : List ℕ) (cid code : ℕ)
        → w.held ≡ xs ++ cid ∷ ys
        → Step w (after_post qd w (xs ++ ys) cid code)
    take : cqe_ready w.lane.q ≡ true → Step w (after_take w)

  pub data Run (w : World E) : World E → Type 0 where
    rest : Run w w
    on : {t u : World E} → Run w t → Step t u → Run w u

-- Every command id is free, with the device, or in the queue, once; and the queue from the head on
-- holds the posted completions, then entries of the lap before.
pub record Books (qd others : ℕ) {E : Type 0} (w : World E) : Type 0 where
  pub uniq :
      (c : ℕ)
      → occ c w.lane.q.free + occ c w.held + occ c (cids w.posted)
        ≡ (if ltb c (qd - 1) then 1 else 0)
  pub size : length w.lane.q.free + length w.held + length w.posted ≡ qd - 1
  pub deep : 2 ≤ qd
  pub head : w.lane.q.cq_head < qd
  pub phase : w.lane.q.cq_phase ≤ 1
  pub tail : w.dev_tail ≡ cell_at qd w.lane.q.cq_head (length w.posted)
  pub dev_phase : w.dev_phase ≡ phase_at qd w.lane.q.cq_head w.lane.q.cq_phase (length w.posted)
  pub lines :
      (i cid code : ℕ)
      → get_elem? w.posted i ≡ some (cid, code)
      → ((w.lane.q.cq (cell_at qd w.lane.q.cq_head i)).command_id ≡ cid)
        × ((w.lane.q.cq (cell_at qd w.lane.q.cq_head i)).status
            ≡ code * 2 + phase_at qd w.lane.q.cq_head w.lane.q.cq_phase i)
  pub stale :
      (i : ℕ)
      → length w.posted ≤ i
      → i < qd
      → (w.lane.q.cq (cell_at qd w.lane.q.cq_head i)).status % 2
        ≢ phase_at qd w.lane.q.cq_head w.lane.q.cq_phase i
  pub counted : w.lane.inflight ≡ (others + length w.held + length w.posted) % 2 ^ 32
  pub books :
      (k : ℕ)
      → occ k w.asked
        ≡ owed w.lane.q.cid_cookie k w.held
          + owed w.lane.q.cid_cookie k (cids w.posted)
          + occ k w.reported
