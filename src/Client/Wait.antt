-- ===== src/Client/Wait.antt =====
-- What a fetch pushes and what a poll takes: the loops of `isefs_fetch` and `isefs_poll` of src/isefs.c.
pub mod Ends
use gpu_fpga_dma.Base.{
  ℕ, zero, suc, ◌+◌, ◌-◌, ◌*◌, ◌%◌, ◌^◌, ◌≤◌, ◌<◌, ◌≡◌, ◌≢◌, refl, sym, ap, ap₂, ◌∙◌, Bool, true,
  false, Option, none, some, List, [], ◌∷◌, ◌++◌, arith, length, take, drop, min, ltb, leb, ◌==◌,
  if◌then◌else◌, length-append, length-take, length-drop, take-append-drop, Bool-cases,
  Option-cases, inl, inr, ◌||◌,
}
use gpu_fpga_dma.Base.Words.{add64, sub64}
use gpu_fpga_dma.Ring.{Req}
use gpu_fpga_dma.Client.{
  Dst, Handle, Rings, request, fetch_from, fetch, poll_shard, poll_shards, poll, limit, chunk,
  max_dst, Progress, Ended, ended, failed, spent, chunk_size, push_chunks, count_done, fetch_wait,
}
use mathlib.Core.List.{append_assoc, append-nil}

abbrev pub there {ℓ} : {A : Type ℓ} → Option A → ℕ
there none = 0
there (some a) = 1

-- What has been pushed, and how many requests are outstanding, as pushes and pops change them.
pub record Counts {E : Type 0} (g : Rings E) (log : E → List (ℕ × Req)) (owed : E → ℕ)
    : Type 0 where
  pub push_log : (e : E) (k : ℕ) (r : Req) → log (g.push e k r) ≡ log e ++ (k, r) ∷ []
  pub push_owed : (e : E) (k : ℕ) (r : Req) → owed (g.push e k r) ≡ suc (owed e)
  pub pop_log : (e : E) (k : ℕ) → log (g.pop e k).1 ≡ log e
  pub pop_owed : (e : E) (k : ℕ) → owed (g.pop e k).1 + there (g.pop e k).0 ≡ owed e

-- The requests for the nodes from the `j`-th on: each numbered by its place, for the row at its place.
abbrev pub wanted : Handle → ℕ → List ℕ → List (ℕ × Req)
wanted h j [] = []
wanted h j (id ∷ ids) = request h (h.dst 0) j j 0 id ∷ wanted h (j + 1) ids

module _ {E : Type 0} (g : Rings E) (log : E → List (ℕ × Req)) (owed : E → ℕ)
    (law : Counts g log owed) (h : Handle) where
  same_request :
      (p i id : ℕ) → request h (h.dst 0) p p i id ≡ request h (h.dst 0) (p + i) (p + i) 0 id
  unfolding request
  same_request p i id = let e : add64 p i ≡ add64 (p + i) 0 = omega arith in rw e refl

  pub log-fetch_from :
      (p i : ℕ) (ids : List ℕ) (env : E)
      → log (fetch_from g h (h.dst 0) p p i ids env) ≡ log env ++ wanted h (p + i) ids
  unfolding fetch_from
  log-fetch_from p i [] env = sym (append-nil (log env))
  log-fetch_from p i (id ∷ ids) env =
      let r = request h (h.dst 0) p p i id in
      let next : p + (i + 1) ≡ p + i + 1 = omega arith in
      log-fetch_from p (i + 1) ids (g.push env r.0 r.1)
      ∙ ap₂ (λ l j. l ++ wanted h j ids) (law.push_log env r.0 r.1) next
      ∙ append_assoc (log env) (r ∷ []) (wanted h (p + i + 1) ids)
      ∙ ap (λ q. log env ++ q ∷ wanted h (p + i + 1) ids) (same_request p i id)

  pub owed-fetch_from :
      (d : Dst) (p q i : ℕ) (ids : List ℕ) (env : E)
      → owed (fetch_from g h d p q i ids env) ≡ owed env + length ids
  unfolding fetch_from
  owed-fetch_from d p q i [] env = omega arith
  owed-fetch_from d p q i (id ∷ ids) env =
      let r = request h d p q i id in
      omega
        (arith, owed-fetch_from d p q (i + 1) ids (g.push env r.0 r.1), law.push_owed env r.0 r.1)

  -- What a poll leaves alone, and what it counts.
  abbrev pub Polled : ℕ → E → List ℕ × E → Type 0
  Polled room env r = (log r.1 ≡ log env) × (owed r.1 + length r.0 ≡ owed env) × (length r.0 ≤ room)

  poll_shard-Polled : (room k : ℕ) (env : E) → Polled room env (poll_shard g h room k env)
  unfolding poll_shard
  poll_shard-Polled zero k env = (refl, omega arith, omega arith)
  poll_shard-Polled (suc room) k env =
      let o = g.pop env k in
      elim (Option-cases o.0) [
        | inl e ↦
            rw (e, poll_shard)
              (law.pop_log env k, omega (arith, law.pop_owed env k, ap there e), omega arith)
        | inr (id, e) ↦
            let ih = poll_shard-Polled room k o.1 in
            rw (e, poll_shard)
              (
                ih.0 ∙ law.pop_log env k,
                omega (arith, ih, law.pop_owed env k, ap there e),
                omega (arith, ih),
              )
      ]

  poll_shards-Polled : (n k room : ℕ) (env : E) → Polled room env (poll_shards g h n k room env)
  unfolding poll_shards
  poll_shards-Polled zero k room env = (refl, omega arith, omega arith)
  poll_shards-Polled (suc n) k room env =
      let one = poll_shard g h room k env in
      let more = poll_shards g h n (k + 1) (room - length one.0) one.1 in
      let p = poll_shard-Polled room k env in
      let q = poll_shards-Polled n (k + 1) (room - length one.0) one.1 in
      elim (Bool-cases (room == 0)) [
        | inl full ↦ rw (full, poll_shards) (refl, omega arith, omega arith)
        | inr space ↦
            rw (space, poll_shards)
              (
                q.0 ∙ p.0,
                omega (arith, p, q, length-append one.0 more.0),
                omega (arith, p, q, length-append one.0 more.0),
              )
      ]

  pub poll-Polled : (env : E) → Polled chunk env (poll g h chunk env)
  unfolding poll
  poll-Polled env = poll_shards-Polled h.nr_shards 0 chunk env
