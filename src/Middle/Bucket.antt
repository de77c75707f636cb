-- ===== src/Middle/Bucket.antt =====
-- The two-stage grouping of CO_SORT_BUCKET: `co_bucket_of`, `co_bucket_evict`, `co_bucket_fullest`,
-- `co_bucket_lap`, and `aged` and the intake of a request, which the window mode shares.
use gpu_fpga_dma.Base.{
  ℕ, zero, suc, ◌+◌, ◌*◌, ◌/◌, ◌^◌, bit_and, Bool, true, false, ◌||◌, ◌&&◌, not, List, [], ◌∷◌,
  ◌++◌, ◌==◌, ltb, leb, if◌then◌else◌, Array, update, length, min, none, some,
}
use gpu_fpga_dma.Base.Words.{u32, add32, sub32, sub64, add64, mul64, and_not, ilog2}
use gpu_fpga_dma.Ring.{Req, pop_req, rq_empty}
use gpu_fpga_dma.Shard.{Shard, Ent, co_nil}
use gpu_fpga_dma.Middle.{Ops, Params, Mid, inc}
use gpu_fpga_dma.Middle.Group.{count_adjacent, sort_window}
use gpu_fpga_dma.Middle.Issue.{flush_issue}

-- The page-aligned offset of a node's row: `off & ~((u64)coalesce_page - 1)`.
unfoldable pub tag_of : Params → ℕ → ℕ
tag_of p node_id = and_not (mul64 node_id p.row) (sub64 p.page 1)

-- The window entry of a request.
abbrev pub ent_of : Params → Req → Ent
ent_of p q = record {
  line_tag = tag_of p q.node_id;
  req_id = q.req_id;
  dst_phys = q.dst_phys;
  node_id = q.node_id;
}

-- `co_bucket_of`
unfoldable pub bucket_of : Params → ℕ → ℕ
bucket_of p line_tag =
    bit_and (u32 (line_tag / 2 ^ ilog2 p.page) / 2 ^ p.bucket_shift) (sub32 p.n_buckets 1)

-- `co_bucket_fullest`: over the `n` buckets from `b` on; `best` is the bucket of `best_n` entries.
unfoldable pub fullest_from : ℕ → ℕ → Array (List Ent) → ℕ → ℕ → ℕ
fullest_from zero b bkt best best_n = best
fullest_from (suc n) b bkt best best_n =
    let more = ltb best_n (length (bkt b)) in
    fullest_from n (b + 1) bkt (if more then b else best) (if more then length (bkt b) else best_n)

unfoldable pub bucket_fullest : Params → Shard → ℕ
unfolding fullest_from
bucket_fullest p s = fullest_from p.n_buckets 0 s.bkt co_nil 0

module _ {E : Type 0} (ops : Ops E) (p : Params) where
  -- `co_bucket_evict`
  unfoldable pub bucket_evict : Mid E → ℕ → Bool → Mid E
  bucket_evict m b by_age =
      let s = m.shard in
      let st = m.stats in
      let n = length (s.bkt b) in
      let win = ops.sort (s.bkt b) in
      let uniq = count_adjacent win in
      let h = min (if uniq == 0 then 0 else ilog2 uniq) 7 in
      if n == 0 then m else record m {
        shard = record s {
          win = win;
          bkt_total = sub32 s.bkt_total n;
          bkt = update s.bkt b [];
          flush_uniq = uniq;
          win_sorted = true;
          issue_pos = 0;
        };
        stats = record st {
          reduce_merges = add64 st.reduce_merges (sub32 n uniq);
          burst_age = if by_age then inc st.burst_age else st.burst_age;
          burst_full = if by_age then st.burst_full else inc st.burst_full;
          burst_hist = update st.burst_hist h (inc (st.burst_hist h));
        };
      }

  -- An entry at the end of its bucket.
  abbrev pub put : Mid E → ℕ → Ent → Mid E
  put m b e = record m {
    shard = record (m.shard) {
      bkt = update (m.shard).bkt b ((m.shard).bkt b ++ (e ∷ []));
      bkt_total = add32 (m.shard).bkt_total 1;
    };
  }

  -- A request on its way to bucket `b`: the age of a store that was empty, and the pre-filter.
  abbrev pub note_arrival : Mid E → ℕ → ℕ → Mid E
  note_arrival m b tag =
      let s = m.shard in
      let st = m.stats in
      let (now, env') = ops.local_clock m.env in
      record {
        shard = record s {
          oldest_ns = if s.bkt_total == 0 then now else s.oldest_ns;
          bkt_last = update s.bkt_last b tag;
        };
        stats = record st {
          prefilter_hits = if tag == s.bkt_last b then inc st.prefilter_hits else st.prefilter_hits;
        };
        env = if s.bkt_total == 0 then env' else m.env;
      }

  -- `while (binned < budget && pop_req(s, &req))`; the fuel is what is left of the budget.
  unfoldable pub bin_from : ℕ → Mid E → Mid E
  unfolding tag_of bucket_of bucket_evict
  bin_from zero m = m
  bin_from (suc f) m =
      let (popped, ring) = pop_req (m.shard).ring in
      elim popped [
        | none ↦ m
        | some q ↦
            let e = ent_of p q in
            let b = bucket_of p e.line_tag in
            let m' =
              note_arrival (record m { shard = record (m.shard) { ring = ring } }) b e.line_tag in
            elim (leb p.bucket_cap (length ((m'.shard).bkt b))) [
              | true ↦
                  let m'' = bucket_evict m' b false in
                  put
                    (record m'' {
                      stats = record (m''.stats) { flush_w = inc (m''.stats).flush_w };
                    })
                    b e
              | false ↦ bin_from f (put m' b e)
            ]
      ]

  -- `aged`
  unfoldable pub aged : Shard → ℕ → Bool
  aged s now = leb (p.flush_us * 1000) (sub64 now s.oldest_ns)

  -- The flush of a partial bucket, on age or on an empty ring.
  unfoldable pub evict_quiet : Mid E → Mid E
  unfolding aged bucket_fullest bucket_evict
  evict_quiet m =
      let s = m.shard in
      let (now, env) = ops.local_clock m.env in
      let age = aged s now in
      let empty = rq_empty s.ring in
      let b = bucket_fullest p s in
      let st = m.stats in
      let m' = record m { env = env } in
      if s.win_sorted || (s.bkt_total == 0)
      then m
      else if (age || empty) && (not (b == co_nil) && (age || leb p.flush_min (length (s.bkt b))))
      then bucket_evict
          (record m' {
            stats = record st {
              flush_aged = if age then inc st.flush_aged else st.flush_aged;
              flush_empty = if age then st.flush_empty else inc st.flush_empty;
            };
          })
          b true
      else m'

  abbrev pub issue_if_sealed : Mid E → Mid E
  issue_if_sealed m = if (m.shard).win_sorted then flush_issue ops p m else m

  -- `co_bucket_lap`
  unfoldable pub bucket_lap : ℕ → Mid E → Mid E
  unfolding bin_from evict_quiet
  bucket_lap budget m =
      if (m.shard).win_sorted
      then flush_issue ops p m
      else if length (m.shard).win == 0
      then issue_if_sealed (evict_quiet (bin_from budget m))
      else flush_issue ops p (sort_window ops p m)
