-- ===== src/Ring/Tests.antt =====
-- The rings at work: runs of the request ring's accesses and of the completion ring.
use gpu_fpga_dma.Base.{ℕ, ◌+◌, ◌-◌, ◌≤◌, ◌^◌, ◌≡◌, refl, false, none, List, [], ◌∷◌, arith}
use gpu_fpga_dma.Ring.{
  Ring, Req, Cqe, Round, rq_cell, pop_read, pop_release, push_reserve, push_ready, push_write,
  push_publish, try_push_cqe, push_cqe, pop_cqe,
}
use gpu_fpga_dma.Ring.Completion.{
  IsQueue, contents, offer, uncons, map_contents, Each, Ends, try_push_cqe_refines, pop_cqe_refines,
  push_cqe-Ends,
}
use gpu_fpga_dma.Ring.Queue.{items}
use gpu_fpga_dma.Ring.Producers.{
  System, Reach, start, later, init, init_ring, returned, reserve, enter, write, commit, copy,
  release, no_req,
}
use gpu_fpga_dma.Ring.Fifo.{requests, pops_in_order, single_cell_loses}

abbrev one_req : Req
one_req = record { req_id = 1; node_id = 10; dst_phys = 0; flags = 0 }

abbrev two_req : Req
two_req = record { req_id = 2; node_id = 20; dst_phys = 0; flags = 0 }

-- Two calls on two cells: the second publishes first, and then the consumer takes both.
abbrev two_calls : (s : System) × Reach (2 ^ 1) s
unfolding init init_ring push_ready push_reserve push_publish push_write pop_read pop_release
two_calls = (
  _,
  later
      (later
        (later
          (later
            (later
              (later
                (later
                  (later
                    (later
                      (later
                        (later (later start (reserve one_req (omega arith)))
                          (reserve two_req (omega arith)))
                        (enter 1 refl refl))
                      (write 1 refl))
                    (commit 1 refl))
                  (enter 0 refl refl))
                (write 0 refl))
              (commit 0 refl))
            (copy one_req refl refl))
          (release one_req refl))
        (copy two_req refl refl))
      (release two_req refl),
)

two_calls_taken : (two_calls.0).taken ≡ one_req ∷ two_req ∷ []
unfolding two_calls
two_calls_taken = refl

pops_in_order_example :
    ((two_calls.0).taken ≡ requests (two_calls.0).calls (two_calls.0).n_taken)
    × ((two_calls.0).n_taken ≤ (two_calls.0).started)
pops_in_order_example = pops_in_order {k = 1} (omega arith) (omega arith) two_calls.1

single_cell_loses_example :
    (s : System) × Reach 1 s
    × ((s.calls 0).phase ≡ returned)
    × ((s.calls 1).phase ≡ returned)
    × (s.n_taken ≡ 0)
    × (pop_read s.ring ≡ none)
    × (s.ring.rq (rq_cell s.ring) ≡ two_req)
single_cell_loses_example = single_cell_loses one_req two_req

abbrev cqe : ℕ → Cqe
cqe i = record { req_id = i; status = 0 }

-- A completion ring of two cells whose head has wrapped, with one completion.
abbrev wrapped : Ring
wrapped = record {
  rq_entries = 2;
  cq_entries = 2;
  rq_mask = 1;
  cq_mask = 1;
  rq_head = 0;
  rq_tail = 0;
  cq_head = 0;
  cq_tail = 2 ^ 32 - 1;
  rq_seq = λ i. i;
  rq = λ _. no_req;
  cq = λ i. cqe (i + 6);
}

wrapped-IsQueue : IsQueue 1 wrapped
wrapped-IsQueue = record {
  narrow = omega arith;
  entries = refl;
  mask = refl;
  head_word = omega arith;
  tail_word = omega arith;
  within = omega arith;
}

try_push_cqe_refines_example :
    (map_contents 1 (try_push_cqe wrapped (cqe 8)) ≡ offer 2 (contents 1 wrapped) (cqe 8))
    × Each (IsQueue 1) (try_push_cqe wrapped (cqe 8))
try_push_cqe_refines_example = try_push_cqe_refines wrapped-IsQueue (cqe 8)

pop_cqe_refines_example :
    ((pop_cqe wrapped).0 ≡ (uncons (contents 1 wrapped)).0)
    × (contents 1 (pop_cqe wrapped).1 ≡ (uncons (contents 1 wrapped)).1)
    × IsQueue 1 (pop_cqe wrapped).1
pop_cqe_refines_example = pop_cqe_refines wrapped-IsQueue

abbrev one_round : List Round
one_round = record { taken = 1; stop = false } ∷ []

push_cqe-Ends_example :
    Ends 1 (contents 1 wrapped) (cqe 8) one_round (push_cqe one_round wrapped (cqe 8))
unfolding items
push_cqe-Ends_example = push_cqe-Ends 1 one_round wrapped (cqe 8) wrapped-IsQueue (omega arith)
