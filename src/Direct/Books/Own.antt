-- ===== src/Direct/Books/Own.antt =====
-- The driver's two moves on a queue pair: `backend_direct_issue_read`, and one turn of the loop of
-- `direct_poll`, of control/nvmevirt/backend_direct.c.
use gpu_fpga_dma.Base.{
  ℕ, suc, ◌+◌, ◌*◌, ◌%◌, ◌^◌, ◌≤◌, ◌<◌, ◌≡◌, ◌≢◌, refl, sym, ap, subst, true, Option, none, some,
  List, [], ◌∷◌, ◌++◌, ◌==◌, Array, update, length, get_elem?, drop, arith, ◌∙◌, ==_refl, ==→eq,
  Bool-cases, inl, inr, if-both, ap₂,
}
use gpu_fpga_dma.Base.Words.{u16}
use gpu_fpga_dma.Shard.Chain.{occ}
use gpu_fpga_dma.Middle.{Bread}
use gpu_fpga_dma.Direct.{
  Host, Dqp, Completion, issue_qp, take_cid, map_read, post_read, take_cqe, advance, cqe_ready,
}
use gpu_fpga_dma.Direct.Books.{
  World, Books, Posted, cids, cell_at, phase_at, owed, claimed, after_issue, after_take,
}
use gpu_fpga_dma.Direct.Books.Moves.{owed-update, get_elem?-lt}

module _ {E : Type 0} (h : Host E) (qd page others : ℕ) (short : qd < 2 ^ 16) where
  -- The command id on top of the stack is in no other place.
  top_once :
      (w : World E) (c : ℕ) (cs : List ℕ)
      → w.lane.q.free ≡ c ∷ cs
      → Books qd others w
      → (occ c w.held ≡ 0) × (occ c (cids w.posted) ≡ 0)
  top_once w c cs e v =
      let u = v.uniq c in
      let top : occ c w.lane.q.free ≡ 1 + occ c cs = ap (occ c) e ∙ ground (arith, ==_refl c) in
      ground arith

  mapped-Books :
      (w : World E) (rd : Bread) (c : ℕ) (cs : List ℕ) (o : Option ℕ × E)
      → w.lane.q.free ≡ c ∷ cs
      → Books qd others w
      → Books qd others (
          after_issue w rd (
            map_read h qd rd c
              (record w.lane {
                q = record w.lane.q {
                  free = cs;
                  cid_cookie = update w.lane.q.cid_cookie c rd.cookie;
                };
              })
              o))
  unfolding map_read post_read
  mapped-Books w rd c cs (none, env) e v =
      let free = top_once w c cs e v in
      record {
        uniq = λ k. omega (arith, v.uniq k, ap (occ k) e);
        size = omega (arith, v.size, ap length e);
        deep = v.deep;
        head = v.head;
        phase = v.phase;
        tail = v.tail;
        dev_phase = v.dev_phase;
        lines = v.lines;
        stale = v.stale;
        counted = v.counted;
        books = λ k. omega (
          arith,
          v.books k,
          owed-update w.lane.q.cid_cookie k c rd.cookie w.held free.0,
          owed-update w.lane.q.cid_cookie k c rd.cookie (cids w.posted) free.1,
        );
      }
  mapped-Books w rd c cs (some dma, env) e v =
      let free = top_once w c cs e v in
      subst
        (λ hs. Books qd others (record w {
          lane = post_read h qd rd c dma (record w.lane {
            q = record w.lane.q { free = cs; cid_cookie = update w.lane.q.cid_cookie c rd.cookie };
            env = env;
          });
          held = hs ++ w.held;
          asked = rd.cookie ∷ w.asked;
        }))
        (sym (ap claimed e))
        (record {
          uniq = λ k. omega (arith, v.uniq k, ap (occ k) e);
          size = omega (arith, v.size, ap length e);
          deep = v.deep;
          head = v.head;
          phase = v.phase;
          tail = v.tail;
          dev_phase = v.dev_phase;
          lines = v.lines;
          stale = v.stale;
          counted = omega (arith, v.counted);
          books = λ k. ground (
            arith,
            v.books k,
            owed-update w.lane.q.cid_cookie k c rd.cookie w.held free.0,
            owed-update w.lane.q.cid_cookie k c rd.cookie (cids w.posted) free.1,
          );
        })

  pub issue-Books :
      (w : World E) (rd : Bread)
      → Books qd others w
      → Books qd others (after_issue w rd (issue_qp h qd rd w.lane))
  unfolding issue_qp take_cid
  issue-Books w rd v = go w.lane.q.free refl
    where
      go :
          (fs : List ℕ)
          → w.lane.q.free ≡ fs
          → Books qd others (after_issue w rd (take_cid h qd rd w.lane fs))
      go [] e = v
      go (c ∷ cs) e = mapped-Books w rd c cs (h.dma_map_page w.lane.env rd.spage rd.len) e v

-- Where the head goes.
advance_head :
    (qd : ℕ) (q : Dqp)
    → qd < 2 ^ 16
    → q.cq_head < qd
    → (advance qd q).cq_head ≡ cell_at qd q.cq_head 1
unfolding advance
advance_head qd q short lt = ground arith

advance_phase :
    (qd : ℕ) (q : Dqp)
    → qd < 2 ^ 16
    → q.cq_head < qd
    → q.cq_phase ≤ 1
    → (advance qd q).cq_phase ≡ phase_at qd q.cq_head q.cq_phase 1
unfolding advance
advance_phase qd q short lt one = ground arith

-- It leaves the entries and the pool of command ids alone.
pub advance_rest :
    (qd : ℕ) (q : Dqp)
    → ((advance qd q).cq ≡ q.cq)
      × ((advance qd q).free ≡ q.free)
      × ((advance qd q).cid_cookie ≡ q.cid_cookie)
unfolding advance
advance_rest qd q =
    if-both (λ (r : Dqp). (r.cq ≡ q.cq) × (r.free ≡ q.free) × (r.cid_cookie ≡ q.cid_cookie))
      (u16 (q.cq_head + 1) == qd) _ _ (λ _. (refl, refl, refl)) (λ _. (refl, refl, refl))

cell_next :
    (qd head i : ℕ)
    → head < qd
    → i < qd
    → cell_at qd (cell_at qd head 1) i ≡ cell_at qd head (suc i)
cell_next qd head i h lt = ground arith

phase_next :
    (qd head phase i : ℕ)
    → head < qd
    → i < qd
    → phase ≤ 1
    → phase_at qd (cell_at qd head 1) (phase_at qd head phase 1) i ≡ phase_at qd head phase (suc i)
phase_next qd head phase i h lt one = ground arith

-- After the first entry is taken it counts as one of the lap before.
lap_back :
    (qd head phase s code i : ℕ)
    → head < qd
    → phase ≤ 1
    → i ≡ qd
    → s ≡ code * 2 + phase
    → s % 2 ≢ phase_at qd head phase i
lap_back qd head phase s code i h one e same = ground arith

-- The entry at the head is the first posted completion.
pub head_line :
    (qd others : ℕ) {E : Type 0} (w : World E) (cid code : ℕ) (ps : List Posted)
    → w.posted ≡ (cid, code) ∷ ps
    → Books qd others w
    → ((w.lane.q.cq w.lane.q.cq_head).command_id ≡ cid)
      × ((w.lane.q.cq w.lane.q.cq_head).status ≡ code * 2 + w.lane.q.cq_phase)
head_line qd others w cid code ps e v =
    let q = w.lane.q in
    let l = v.lines 0 cid code (ap (λ t. get_elem? t 0) e) in
    let here : cell_at qd q.cq_head 0 ≡ q.cq_head = ground (arith, v.head) in
    let now : phase_at qd q.cq_head q.cq_phase 0 ≡ q.cq_phase = ground (arith, v.head) in
    (
      ap (λ c. (q.cq c).command_id) (sym here) ∙ l.0,
      ap (λ c. (q.cq c).status) (sym here) ∙ l.1 ∙ omega (arith, now),
    )

module _ {E : Type 0} (h : Host E) (qd page others : ℕ) (short : qd < 2 ^ 16) where
  took-Books :
      (w : World E) (cid code : ℕ) (ps : List Posted)
      → w.posted ≡ (cid, code) ∷ ps
      → Books qd others w
      → Books qd others (after_take h qd page w)
  unfolding take_cqe
  took-Books w cid code ps e v = record {
    uniq = λ c. ground (
      arith,
      v.uniq c,
      ap (occ c) same.1,
      ap (λ t. occ c (cids t)) e,
      ap (λ t. occ c (cids t)) left,
      first.0,
    );
    size = omega (arith, v.size, ap length same.1, ap length e, ap length left);
    deep = v.deep;
    head = ground (arith, advance_head qd q short v.head, v.head);
    phase = ground (arith, advance_phase qd q short v.head v.phase, v.phase);
    tail =
        v.tail
        ∙ ap (cell_at qd q.cq_head) (ap length e)
        ∙ sym (cell_to (length ps) room)
        ∙ ap (cell_at qd (advance qd q).cq_head) (sym (ap length left));
    dev_phase =
        v.dev_phase
        ∙ ap (phase_at qd q.cq_head q.cq_phase) (ap length e)
        ∙ sym (phase_to (length ps) room)
        ∙ ap (phase_at qd (advance qd q).cq_head (advance qd q).cq_phase) (sym (ap length left));
    lines = λ i d s g.
        let old =
          v.lines (suc i) d s
            (ap (λ t. get_elem? t (suc i)) e ∙ sym (ap (λ t. get_elem? t i) left) ∙ g) in
        let lt : i < qd =
          omega (arith, get_elem?-lt (drop 1 w.posted) i (d, s) g, ap length left, room) in
        (
          ap₂ (λ (f : Array Completion) c. (f c).command_id) same.0 (cell_to i lt) ∙ old.0,
          ap₂ (λ (f : Array Completion) c. (f c).status) same.0 (cell_to i lt)
              ∙ old.1
              ∙ ap (λ p. s * 2 + p) (sym (phase_to i lt)),
        );
    stale = λ i ge lt bad.
        let status = ap₂ (λ (f : Array Completion) c. (f c).status) same.0 (cell_to i lt) in
        let seen = ap (λ t. t % 2) (sym status) ∙ bad ∙ phase_to i lt in
        elim (Bool-cases (suc i == qd)) [
          | inl end ↦
              let back : cell_at qd q.cq_head (suc i) ≡ q.cq_head = ground (arith, v.head) in
              lap_back qd q.cq_head q.cq_phase _ code (suc i) v.head v.phase (==→eq _ _ end)
                (ap (λ c. (q.cq c).status) back ∙ first.1) seen
          | inr inner ↦
              v.stale (suc i) (omega (arith, ge, ap length e, ap length left)) (ground arith) seen
        ];
    counted = omega (arith, v.counted, ap length e, ap length left);
    books = λ k. ground (
      arith,
      v.books k,
      ap (λ f. owed f k w.held) same.2,
      ap (λ f. owed f k (cids (drop 1 w.posted))) same.2,
      ap (λ t. owed q.cid_cookie k (cids t)) e,
      ap (λ t. owed q.cid_cookie k (cids t)) left,
      ap q.cid_cookie first.0,
    );
  }
    where
      q : Dqp
      q = w.lane.q

      same :
          ((advance qd q).cq ≡ q.cq)
          × ((advance qd q).free ≡ q.free)
          × ((advance qd q).cid_cookie ≡ q.cid_cookie)
      same = advance_rest qd q

      left : drop 1 w.posted ≡ ps
      left = ap (drop 1) e

      room : length ps < qd
      room = omega (arith, v.size, ap length e)

      cell_to :
          (i : ℕ) → i < qd → cell_at qd (advance qd q).cq_head i ≡ cell_at qd q.cq_head (suc i)
      cell_to i lt =
          ap (λ c. cell_at qd c i) (advance_head qd q short v.head)
          ∙ cell_next qd q.cq_head i v.head lt

      phase_to :
          (i : ℕ)
          → i < qd
          → phase_at qd (advance qd q).cq_head (advance qd q).cq_phase i
            ≡ phase_at qd q.cq_head q.cq_phase (suc i)
      phase_to i lt =
          ap₂ (λ c p. phase_at qd c p i) (advance_head qd q short v.head)
            (advance_phase qd q short v.head v.phase)
          ∙ phase_next qd q.cq_head q.cq_phase i v.head lt v.phase

      first :
          ((q.cq q.cq_head).command_id ≡ cid) × ((q.cq q.cq_head).status ≡ code * 2 + q.cq_phase)
      first = head_line qd others w cid code ps e v

  pub take-Books :
      (w : World E)
      → cqe_ready w.lane.q ≡ true
      → Books qd others w
      → Books qd others (after_take h qd page w)
  unfolding cqe_ready
  take-Books w new v = go w.posted refl
    where
      go : (ps : List Posted) → w.posted ≡ ps → Books qd others (after_take h qd page w)
      go ((cid, code) ∷ ps) e = took-Books w cid code ps e v
      go [] e = absurd (
          v.stale 0 (omega (arith, ap length e)) (omega (arith, v.deep))
            (ground (arith, ==→eq _ _ new, v.head)))
