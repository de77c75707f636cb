-- ===== src/Ring/Producers.antt =====
-- Any number of `l1_push_req` calls at once, and the consumer, as interleaved accesses to one
-- request ring. A call is known by the place of its fetch-add among all of them.
use gpu_fpga_dma.Base.{
  ℕ, ◌+◌, ◌-◌, ◌<◌, ◌^◌, ◌≡◌, true, Option, none, some, List, [], ◌∷◌, ◌++◌, Array, update,
}
use gpu_fpga_dma.Ring.{
  Ring, Req, pop_read, pop_release, push_reserve, push_ready, push_write, push_publish,
}

-- Where a call of `l1_push_req` stands: not begun, spinning on its cell, past the spin, payload
-- written, returned.
pub data Phase : Type 0 where
  unborn spinning ready written returned : Phase

-- A call's locals: the position that its fetch-add returned, and the request.
pub record Call : Type 0 where
  pub phase : Phase
  pub pos : ℕ
  pub req : Req

pub record System : Type 0 where
  pub ring : Ring
  pub calls : Array Call
  -- the number of fetch-adds so far
  pub started : ℕ
  -- what the consumer has copied from a cell that it has not yet freed
  pub copied : Option Req
  -- the requests that `pop_req` has returned, oldest first
  pub taken : List Req
  pub n_taken : ℕ

abbrev pub set_phase : System → ℕ → Phase → Array Call
set_phase s j p = update s.calls j (record (s.calls j) { phase = p })

abbrev pub begin_call : System → Req → System
begin_call s q = record s {
  ring = (push_reserve s.ring).1;
  calls =
      update s.calls s.started
        (record { phase = spinning; pos = (push_reserve s.ring).0; req = q });
  started = s.started + 1;
}

abbrev pub end_spin : System → ℕ → System
end_spin s j = record s { calls = set_phase s j ready }

abbrev pub write_payload : System → ℕ → System
write_payload s j = record s {
  ring = push_write s.ring (s.calls j).pos (s.calls j).req;
  calls = set_phase s j written;
}

abbrev pub publish : System → ℕ → System
publish s j = record s {
  ring = push_publish s.ring (s.calls j).pos;
  calls = set_phase s j returned;
}

abbrev pub copy_cell : System → Req → System
copy_cell s q = record s { copied = some q }

abbrev pub free_cell : System → Req → System
free_cell s q = record s {
  ring = pop_release s.ring;
  copied = none;
  taken = s.taken ++ (q ∷ []);
  n_taken = s.n_taken + 1;
}

-- One access by one of the threads. The first has a bound on the calls that wait at once: each is a
-- thread of its own, so fewer than 2^32 of them stand between the cursors.
pub data Step (s : System) : System → Type 0 where
  reserve : (q : Req) → s.started + 1 < s.n_taken + 2 ^ 32 → Step s (begin_call s q)
  enter :
      (j : ℕ)
      → (s.calls j).phase ≡ spinning
      → push_ready s.ring (s.calls j).pos ≡ true
      → Step s (end_spin s j)
  write : (j : ℕ) → (s.calls j).phase ≡ ready → Step s (write_payload s j)
  commit : (j : ℕ) → (s.calls j).phase ≡ written → Step s (publish s j)
  copy : (q : Req) → s.copied ≡ none → pop_read s.ring ≡ some q → Step s (copy_cell s q)
  release : (q : Req) → s.copied ≡ some q → Step s (free_cell s q)

abbrev pub no_req : Req
no_req = record { req_id = 0; node_id = 0; dst_phys = 0; flags = 0 }

-- `nvmev_coalesce_init` zeroes the header and sets cell `i` of `rq_seq` to `i`.
unfoldable pub init_ring : ℕ → Ring
init_ring entries = record {
  rq_entries = entries;
  cq_entries = entries;
  rq_mask = entries - 1;
  cq_mask = entries - 1;
  rq_head = 0;
  rq_tail = 0;
  cq_head = 0;
  cq_tail = 0;
  rq_seq = λ i. i;
  rq = λ _. no_req;
  cq = λ _. record { req_id = 0; status = 0 };
}

unfoldable pub init : ℕ → System
unfolding init_ring
init entries = record {
  ring = init_ring entries;
  calls = λ _. record { phase = unborn; pos = 0; req = no_req };
  started = 0;
  copied = none;
  taken = [];
  n_taken = 0;
}

pub data Reach (entries : ℕ) : System → Type 0 where
  start : Reach entries (init entries)
  later : {s t : System} → Reach entries s → Step s t → Reach entries t
