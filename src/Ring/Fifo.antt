-- ===== src/Ring/Fifo.antt =====
-- The request ring hands out requests in the order of the producers' fetch-adds: an invariant of
-- every interleaving of `l1_push_req` calls with the consumer.
mod Window
mod Steps
use gpu_fpga_dma.Base.{ℕ, ◌≤◌, ◌^◌, ◌≡◌, refl, none, arith}
use gpu_fpga_dma.Ring.{Req, rq_cell, pop_read, push_reserve, push_ready, push_write, push_publish}
use gpu_fpga_dma.Ring.Producers.{
  System, Reach, start, later, init, init_ring, returned, reserve, enter, write, commit,
}
use Window.{Inv}
use Steps.{Step-Inv, init-Inv}
pub use Window.{requests}

-- The invariant holds in every reachable state.
pub Reach-Inv : {k : ℕ} {s : System} → 1 ≤ k → k ≤ 31 → Reach (2 ^ k) s → Inv k s
Reach-Inv {k} lo hi start = init-Inv k lo hi
Reach-Inv lo hi (later r st) = Step-Inv (Reach-Inv lo hi r) st

-- With a ring of at least two cells, whatever the interleaving of the producers' accesses with the
-- consumer's, the requests that `pop_req` has returned are those of the first `n` calls of
-- `l1_push_req`, in the order of their fetch-adds, each once; and no call that the consumer has not
-- reached has been passed over.
pub pops_in_order :
    {k : ℕ} {s : System}
    → 1 ≤ k
    → k ≤ 31
    → Reach (2 ^ k) s
    → (s.taken ≡ requests s.calls s.n_taken) × (s.n_taken ≤ s.started)
pops_in_order lo hi r = let v = Reach-Inv lo hi r in (v.got, v.behind)

-- In a ring of one cell, which `coalesce_ring=1` gives, a second call finds the word that it waits
-- for as soon as the first has published, and overwrites the unread request: both calls have
-- returned, nothing has been taken, and the consumer finds the ring empty.
pub single_cell_loses :
    (a b : Req)
    → (s : System) × Reach 1 s
      × ((s.calls 0).phase ≡ returned)
      × ((s.calls 1).phase ≡ returned)
      × (s.n_taken ≡ 0)
      × (pop_read s.ring ≡ none)
      × (s.ring.rq (rq_cell s.ring) ≡ b)
unfolding init init_ring push_reserve push_ready push_write push_publish pop_read
single_cell_loses a b = (
  _,
  later
      (later
        (later
          (later
            (later
              (later (later (later start (reserve a (omega arith))) (enter 0 refl refl))
                (write 0 refl))
              (commit 0 refl))
            (reserve b (omega arith)))
          (enter 1 refl refl))
        (write 1 refl))
      (commit 1 refl),
  refl,
  refl,
  refl,
  refl,
  refl,
)
