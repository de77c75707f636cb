-- ===== src/Direct/Books/Moves.antt =====
-- Each move of the issuer, the device or the reaper keeps the books of the queue pair.
use gpu_fpga_dma.Base.{
  ℕ, zero, suc, ◌+◌, ◌*◌, ◌<◌, ◌≡◌, ◌≢◌, refl, sym, ap, some, List, [], ◌∷◌, ◌++◌, ◌==◌,
  if◌then◌else◌, Array, update, length, get_elem?, arith, length-append, ◌∙◌, update_ne, Bool-cases,
  inl, inr,
}
use gpu_fpga_dma.Shard.Chain.{occ, occ-append}
use gpu_fpga_dma.Direct.Books.{World, Books, Posted, cids, cell_at, owed, after_post}

pub cids-append : (ps qs : List Posted) → cids (ps ++ qs) ≡ cids ps ++ cids qs
cids-append [] qs = refl
cids-append (p ∷ ps) qs = ap (λ t. p.0 ∷ t) (cids-append ps qs)

pub owed-append :
    (f : Array ℕ) (k : ℕ) (xs ys : List ℕ) → owed f k (xs ++ ys) ≡ owed f k xs + owed f k ys
owed-append f k [] ys = omega arith
owed-append f k (x ∷ xs) ys = omega (arith, owed-append f k xs ys)

-- A command id that is not among `cs` can be given a new cookie.
pub owed-update :
    (f : Array ℕ) (k c v : ℕ) (cs : List ℕ) → occ c cs ≡ 0 → owed (update f c v) k cs ≡ owed f k cs
owed-update f k c v [] e = refl
owed-update f k c v (x ∷ xs) e = ground (arith, owed-update f k c v xs)

pub get_elem?-snoc {ℓ} :
    {A : Type ℓ} (xs : List A) (a : A) (i : ℕ)
    → get_elem? (xs ++ a ∷ []) i ≡ (if i == length xs then some a else get_elem? xs i)
get_elem?-snoc [] a zero = refl
get_elem?-snoc [] a (suc i) = ground arith
get_elem?-snoc (x ∷ xs) a zero = ground arith
get_elem?-snoc (x ∷ xs) a (suc i) = ground (arith, get_elem?-snoc xs a i)

pub get_elem?-lt {ℓ} :
    {A : Type ℓ} (xs : List A) (i : ℕ) (a : A) → get_elem? xs i ≡ some a → i < length xs
get_elem?-lt [] i a e = cc
get_elem?-lt (x ∷ xs) zero a e = omega arith
get_elem?-lt (x ∷ xs) (suc i) a e = omega (arith, get_elem?-lt xs i a e)

pub cells_apart :
    (qd head i j : ℕ) → head < qd → i < qd → j < qd → i ≢ j → cell_at qd head i ≢ cell_at qd head j
cells_apart qd head i j h hi hj ne e = ground arith

-- Taking one command out of the list that the device holds.
occ-middle :
    (c cid : ℕ) (xs ys hs : List ℕ)
    → hs ≡ xs ++ cid ∷ ys
    → occ c hs ≡ occ c (xs ++ ys) + occ c (cid ∷ [])
occ-middle c cid xs ys hs e = rw e (omega (arith, occ-append c xs (cid ∷ ys), occ-append c xs ys))

owed-middle :
    (f : Array ℕ) (k cid : ℕ) (xs ys hs : List ℕ)
    → hs ≡ xs ++ cid ∷ ys
    → owed f k hs ≡ owed f k (xs ++ ys) + owed f k (cid ∷ [])
owed-middle f k cid xs ys hs e =
    rw e (omega (arith, owed-append f k xs (cid ∷ ys), owed-append f k xs ys))

length-middle :
    (cid : ℕ) (xs ys hs : List ℕ) → hs ≡ xs ++ cid ∷ ys → length hs ≡ suc (length (xs ++ ys))
length-middle cid xs ys hs e =
    rw e (omega (arith, length-append xs (cid ∷ ys), length-append xs ys))

module _ {E : Type 0} (qd others : ℕ) where
  pub post-Books :
      (w : World E) (xs ys : List ℕ) (cid code : ℕ)
      → w.held ≡ xs ++ cid ∷ ys
      → Books qd others w
      → Books qd others (after_post qd w (xs ++ ys) cid code)
  post-Books w xs ys cid code e v = record {
    uniq = λ c. omega (
      arith,
      v.uniq c,
      occ-middle c cid xs ys w.held e,
      ap (occ c) (cids-append w.posted ((cid, code) ∷ [])),
      occ-append c (cids w.posted) (cid ∷ []),
    );
    size = omega (arith, v.size, many);
    deep = v.deep;
    head = v.head;
    phase = v.phase;
    tail = ground (arith, v.tail, many.0, room);
    dev_phase = ground (arith, v.tail, v.dev_phase, many.0, room);
    lines = λ i d s g. elim (Bool-cases (i == length w.posted)) [
      | inl last ↦ ground (arith, get_elem?-snoc w.posted (cid, code) i, v.tail, v.dev_phase)
      | inr before ↦
          let old : get_elem? w.posted i ≡ some (d, s) =
            ground (arith, get_elem?-snoc w.posted (cid, code) i) in
          rw (elsewhere i (omega (arith, get_elem?-lt w.posted i (d, s) old, room)) (ground arith))
            (v.lines i d s old)
    ];
    stale =
        λ i ge lt. rw (elsewhere i lt (omega (arith, many))) (v.stale i (omega (arith, many)) lt);
    counted = omega (arith, v.counted, many);
    books = λ k. omega (
      arith,
      v.books k,
      owed-middle w.lane.q.cid_cookie k cid xs ys w.held e,
      ap (owed w.lane.q.cid_cookie k) (cids-append w.posted ((cid, code) ∷ [])),
      owed-append w.lane.q.cid_cookie k (cids w.posted) (cid ∷ []),
    );
  }
    where
      many :
          (length (w.posted ++ (cid, code) ∷ []) ≡ suc (length w.posted))
          × (length w.held ≡ suc (length (xs ++ ys)))
      many = (
        omega (arith, length-append w.posted ((cid, code) ∷ [])),
        length-middle cid xs ys w.held e,
      )

      room : suc (length w.posted) < qd
      room = omega (arith, v.size, many, v.deep)

      elsewhere :
          (i : ℕ)
          → i < qd
          → i ≢ length w.posted
          → update w.lane.q.cq w.dev_tail
              (record { result0 = 0; command_id = cid; status = code * 2 + w.dev_phase })
              (cell_at qd w.lane.q.cq_head i)
            ≡ w.lane.q.cq (cell_at qd w.lane.q.cq_head i)
      elsewhere i lt ne =
          let apart : cell_at qd w.lane.q.cq_head (length w.posted)
              ≢ cell_at qd w.lane.q.cq_head i =
            cells_apart qd w.lane.q.cq_head (length w.posted) i v.head (omega (arith, room)) lt
              (λ q. ne (sym q)) in
          update_ne w.lane.q.cq _ (λ q. apart (sym v.tail ∙ q))
