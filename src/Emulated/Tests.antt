-- ===== src/Emulated/Tests.antt =====
-- Polls of a small ring of timers: control/nvmevirt/backend_model.c.
use gpu_fpga_dma.Base.{
  ℕ, suc, ◌+◌, ◌-◌, ◌^◌, ◌≡◌, refl, true, none, some, [], ◌∷◌, ◌++◌, arith, update,
}
use gpu_fpga_dma.Base.Words.{sub32}
use gpu_fpga_dma.Ring.Queue.{items}
use gpu_fpga_dma.Emulated.{verdict, failed, BmRing, Machine, Tuning, arm, drain_from}
use gpu_fpga_dma.Emulated.Timers.{
  IsRing, waiting, Ascends, poll_completes_due, due_of, not_due, arm_refines,
}

-- A machine whose state is its clock.
abbrev machine : Machine ℕ
machine = record {
  local_clock = λ e. (e, e + 1);
  prandom = λ e. (7, e);
  is_mapped = λ e dev. true;
  memcpy = λ e rd. e;
}

abbrev steady : Tuning
steady = record { read_ns = 100; drop_ppm = 0; err_ppm = 0 }

abbrev faulty : Tuning
faulty = record { read_ns = 100; drop_ppm = 5; err_ppm = 5 }

low_roll_drops : verdict faulty 4 ≡ none
unfolding verdict
low_roll_drops = refl

next_rolls_fail : verdict faulty 9 ≡ some failed
unfolding verdict
next_rolls_fail = refl

-- Four entries, and cursors about to wrap.
abbrev ring : BmRing
ring = record {
  e =
      update
        (update (λ _. record { due_ns = 0; cookie = 0 }) 3 (record { due_ns = 10; cookie = 1 })) 0
        (record { due_ns = 20; cookie = 2 });
  cap = 4;
  head = 2 ^ 32 - 1;
  tail = 1;
}

ring-IsRing : IsRing 2 ring
ring-IsRing = record {
  cap = refl;
  small = omega arith;
  head = omega arith;
  tail = omega arith;
  room = omega arith;
}

ring-Ascends : Ascends (waiting 2 ring)
unfolding items
ring-Ascends = omega arith

poll_completes_due_example :
    ((drain_from machine steady (suc (sub32 ring.tail ring.head)) 15 ring 0).0
      ≡ due_of 15 (waiting 2 ring))
    × (waiting 2 (drain_from machine steady (suc (sub32 ring.tail ring.head)) 15 ring 0).1
        ≡ not_due 15 (waiting 2 ring))
poll_completes_due_example =
    poll_completes_due machine steady refl refl 2 15 ring 0 ring-IsRing ring-Ascends

one_due : due_of 15 (waiting 2 ring) ≡ (1, 0) ∷ []
unfolding items
one_due = refl

arm_refines_example :
    (waiting 2 (arm ring 30 3) ≡ waiting 2 ring ++ record { due_ns = 30; cookie = 3 } ∷ [])
    × IsRing 2 (arm ring 30 3)
    × Ascends (waiting 2 (arm ring 30 3))
unfolding items
arm_refines_example = arm_refines 2 30 3 ring ring-IsRing (omega arith) ring-Ascends (omega arith)
