-- ===== src/Client/Wait/Ends.antt =====
-- What `isefs_fetch_wait` of src/isefs.c pushes, how much is outstanding meanwhile, and that it ends.
use gpu_fpga_dma.Base.{ℕ, ◌+◌, ◌^◌, ◌≤◌, ◌<◌, ◌≡◌, ◌≢◌, List, ◌++◌, length, take, drop, ◌⊎◌}
use gpu_fpga_dma.Ring.{Req}
use gpu_fpga_dma.Client.{
  Handle, Rings, fetch_from, poll, limit, chunk, Progress, Ended, ended, failed, spent,
}
use gpu_fpga_dma.Client.Wait.{Counts, wanted}

-- The client's buffer is set and has a row for each node.
pub record Fits (h : Handle) (ids : List ℕ) : Type 0 where
  pub set : (h.dst 0).va ≢ 0
  pub rows : length ids ≤ (h.dst 0).cap_rows
  pub small : (h.dst 0).cap_rows < 2 ^ 64

module _ {E : Type 0} (g : Rings E) (log : E → List (ℕ × Req)) (owed : E → ℕ)
    (law : Counts g log owed) (h : Handle) (ids : List ℕ) (before : List (ℕ × Req)) where
  -- The requests pushed are the first ones wanted, in order; those not yet counted as done are
  -- outstanding, and are at most `limit`.
  pub record Inv (s : Progress E) : Type 0 where
    pub pushes : log s.env ≡ before ++ wanted h 0 (take s.pushed ids)
    pub within : s.pushed ≤ length ids
    pub books : owed s.env + s.done ≡ s.pushed
    pub window : owed s.env ≤ limit

  abbrev pushed_on : ℕ → Progress E → Progress E
  pushed_on c s = record s {
    pushed = s.pushed + c;
    env = fetch_from g h (h.dst 0) s.pushed s.pushed 0 (take c (drop s.pushed ids)) s.env;
  }

  -- The inner loop ends by its test, with all requests pushed or the window full.
  abbrev Chunks : ℕ → Ended (Progress E) → Type 0
  Chunks done (ended t) = Inv t × (t.done ≡ done) × ((length ids ≤ t.pushed) ⊎ (limit ≤ owed t.env))
  Chunks done (failed t) = ⊥
  Chunks done (spent t) = ⊥

  -- Each poll with requests outstanding finds a completion.
  pub record Answers : Type 0 where
    pub some_done : (e : E) → 0 < owed e → 0 < length (poll g h chunk e).0

  -- All requests have been pushed, each with its number and its row's address, in order, and all have
  -- been counted as done; none is outstanding.
  pub record Complete (t : Progress E) : Type 0 where
    pub pushes : log t.env ≡ before ++ wanted h 0 ids
    pub done : t.done ≡ length ids
    pub none_out : owed t.env ≡ 0

  -- How a run may stand: complete, or short of fuel with the invariant.
  abbrev pub Sound : Ended (Progress E) → Type 0
  Sound (ended t) = Complete t
  Sound (failed t) = ⊥
  Sound (spent t) = Inv t

  abbrev pub Completes : Ended (Progress E) → Type 0
  Completes (ended t) = Complete t
  Completes (failed t) = ⊥
  Completes (spent t) = ⊥
