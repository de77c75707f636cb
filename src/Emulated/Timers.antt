-- ===== src/Emulated/Timers.antt =====
-- The ring of timers of control/nvmevirt/backend_model.c as a queue, and what a poll takes from it.
use gpu_fpga_dma.Base.{
  ℕ, zero, suc, ◌-◌, ◌^◌, ◌≤◌, ◌<◌, ◌≡◌, ◌≢◌, ne→not_==, refl, subst, sym, ap, ap₂, ◌∙◌, true,
  false, some, List, [], ◌∷◌, ◌++◌, ltb, ◌==◌, arith, Bool-cases, inl, inr, bit_and, ltb→lt,
  if◌then◌else◌, update,
}
use gpu_fpga_dma.Base.Words.{add32, sub32}
use gpu_fpga_dma.Ring.Queue.{items, items-push, cell, bit_and-cell, pow-le}
use gpu_fpga_dma.Emulated.{BmEnt, BmRing, Machine, Tuning, arm, judge, report, front, drain_from}

-- The reads that wait in a ring of `2 ^ k` entries, the oldest first.
abbrev pub waiting : ℕ → BmRing → List BmEnt
waiting k r = items k r.e (sub32 r.tail r.head) r.head

-- The ring has `2 ^ k` entries and holds no more, between two 32-bit cursors.
pub record IsRing (k : ℕ) (r : BmRing) : Type 0 where
  pub cap : r.cap ≡ 2 ^ k
  pub small : k < 32
  pub head : r.head < 2 ^ 32
  pub tail : r.tail < 2 ^ 32
  pub room : sub32 r.tail r.head ≤ 2 ^ k

subst2 {ℓ κ ρ} :
    {A : Type ℓ} {B : Type κ} (P : A → B → Type ρ) {a a' : A} {b b' : B}
    → a ≡ a'
    → b ≡ b'
    → P a b
    → P a' b'
subst2 P {a} {a'} {b} {b'} p q h = subst (λ x. P x b') p (subst (P a) q h)

module _ {E : Type 0} (m : Machine E) (t : Tuning) where
  -- A poll of a plain queue: the entries that are due, from the front on, up to the first that is not.
  pub drain : ℕ → List BmEnt → E → List (ℕ × ℕ) × List BmEnt × E
  drain now [] env = ([], [], env)
  drain now (x ∷ xs) env = elim (ltb now x.due_ns) [
    | true ↦ ([], x ∷ xs, env)
    | false ↦
        let (status, env') = judge m t env in
        let (cs, rest, env'') = drain now xs env' in (report x.cookie status cs, rest, env'')
  ]

  -- Results of a poll of the ring and of a poll of a queue that say the same.
  abbrev pub Agrees : ℕ → List (ℕ × ℕ) × BmRing × E → List (ℕ × ℕ) × List BmEnt × E → Type 0
  Agrees k a b = (a.0 ≡ b.0) × (waiting k a.1 ≡ b.1) × (a.2 ≡ b.2) × IsRing k a.1

  stop_empty :
      (f now : ℕ) (r : BmRing) (env : E)
      → r.head ≡ r.tail
      → drain_from m t (suc f) now r env ≡ ([], r, env)
  unfolding drain_from
  stop_empty f now r env e =
      let same : (r.head == r.tail) ≡ true = ground arith in rw (same, drain_from) refl

  stop_early :
      (f now : ℕ) (r : BmRing) (env : E)
      → r.head ≢ r.tail
      → ltb now (front r).due_ns ≡ true
      → drain_from m t (suc f) now r env ≡ ([], r, env)
  unfolding drain_from
  stop_early f now r env ne due = rw (ne→not_== _ _ ne, due, drain_from) refl

  abbrev behind : BmRing → BmRing
  behind r = record r { head = add32 r.head 1 }

  turn :
      (f now : ℕ) (r : BmRing) (env : E)
      → r.head ≢ r.tail
      → ltb now (front r).due_ns ≡ false
      → drain_from m t (suc f) now r env ≡ (
        report
            (front r).cookie
            (judge m t env).0
            (drain_from m t f now (behind r) (judge m t env).1).0,
        (drain_from m t f now (behind r) (judge m t env).1).1,
        (drain_from m t f now (behind r) (judge m t env).1).2,
      )
  unfolding drain_from
  turn f now r env ne due = rw (ne→not_== _ _ ne, due, drain_from) refl

  behind-IsRing :
      (k n : ℕ) (r : BmRing) → sub32 r.tail r.head ≡ suc n → IsRing k r → IsRing k (behind r)
  behind-IsRing k n r e v = record {
    cap = v.cap;
    small = v.small;
    head = omega arith;
    tail = v.tail;
    room = omega (arith, v, e);
  }

  front_lem : (k : ℕ) (r : BmRing) → IsRing k r → front r ≡ r.e (cell k r.head)
  unfolding front
  front_lem k r v = ap (λ c. r.e (bit_and r.head (c - 1))) v.cap ∙ ap r.e (bit_and-cell k r.head)

  drain_stop :
      (now : ℕ) (x : BmEnt) (xs : List BmEnt) (env : E)
      → ltb now x.due_ns ≡ true
      → drain now (x ∷ xs) env ≡ ([], x ∷ xs, env)
  unfolding drain
  drain_stop now x xs env due = rw (due, drain) refl

  drain_turn :
      (now : ℕ) (x : BmEnt) (xs : List BmEnt) (env : E)
      → ltb now x.due_ns ≡ false
      → drain now (x ∷ xs) env ≡ (
        report x.cookie (judge m t env).0 (drain now xs (judge m t env).1).0,
        (drain now xs (judge m t env).1).1,
        (drain now xs (judge m t env).1).2,
      )
  unfolding drain
  drain_turn now x xs env due = rw (due, drain) refl

  drained :
      (k n now : ℕ) (r : BmRing) (env : E)
      → IsRing k r
      → sub32 r.tail r.head ≡ n
      → Agrees k (drain_from m t (suc n) now r env) (drain now (items k r.e n r.head) env)
  unfolding items drain
  drained k zero now r env v e =
      subst (λ a. Agrees k a ([], [], env)) (sym (stop_empty 0 now r env (omega (arith, e, v))))
        (refl, ap (λ n. items k r.e n r.head) e, refl, v)
  drained k (suc n) now r env v e =
      let x = r.e (cell k r.head) in
      let xs = items k r.e n (add32 r.head 1) in
      let ne : r.head ≢ r.tail = λ q. absurd (omega (arith, e, q, v)) in
      let at = front_lem k r v in
      elim (Bool-cases (ltb now x.due_ns)) [
        | inl later ↦
            subst2 (Agrees k)
              (sym (stop_early (suc n) now r env ne (ap (λ y. ltb now y.due_ns) at ∙ later)))
              (sym (drain_stop now x xs env later))
              (refl, ap (λ n. items k r.e n r.head) e, refl, v)
        | inr due ↦
            let w = behind-IsRing k n r e v in
            let ih = drained k n now (behind r) (judge m t env).1 w (omega (arith, e, v)) in
            subst2 (Agrees k)
              (sym (turn (suc n) now r env ne (ap (λ y. ltb now y.due_ns) at ∙ due)))
              (sym (drain_turn now x xs env due))
              (ap₂ (λ y cs. report y.cookie (judge m t env).0 cs) at ih.0, ih.1, ih.2, ih.3)
      ]

  -- A poll of a shard's ring reports, keeps and rolls what a poll of the plain queue of its waiting
  -- reads does, with a turn for each of them and one for the last test, and the ring stays well formed.
  pub drain_from-Agrees :
      (k now : ℕ) (r : BmRing) (env : E)
      → IsRing k r
      → Agrees k
          (drain_from m t (suc (sub32 r.tail r.head)) now r env)
          (drain now (waiting k r) env)
  drain_from-Agrees k now r env v = drained k (sub32 r.tail r.head) now r env v refl

-- The cookies that are due, each with status 0, and the entries that are not, wherever they stand.
abbrev pub due_of : ℕ → List BmEnt → List (ℕ × ℕ)
due_of now [] = []
due_of now (x ∷ xs) = if ltb now x.due_ns then due_of now xs else (x.cookie, 0) ∷ due_of now xs

abbrev pub not_due : ℕ → List BmEnt → List BmEnt
not_due now [] = []
not_due now (x ∷ xs) = if ltb now x.due_ns then x ∷ not_due now xs else not_due now xs

abbrev pub AllFrom : ℕ → List BmEnt → Type 0
AllFrom d [] = Unit
AllFrom d (x ∷ xs) = (d ≤ x.due_ns) × AllFrom d xs

abbrev pub Ascends : List BmEnt → Type 0
Ascends [] = Unit
Ascends (x ∷ xs) = AllFrom x.due_ns xs × Ascends xs

none_due :
    (now d : ℕ) (xs : List BmEnt)
    → now < d
    → AllFrom d xs
    → (due_of now xs ≡ []) × (not_due now xs ≡ xs)
none_due now d [] lt h = (refl, refl)
none_due now d (x ∷ xs) lt h = ground (arith, none_due now d xs lt h.1)

module _ {E : Type 0} (m : Machine E) (t : Tuning) (no_drop : t.drop_ppm ≡ 0)
    (no_err : t.err_ppm ≡ 0) where
  fair : (env : E) → judge m t env ≡ (some 0, env)
  unfolding judge
  fair env = rw (no_drop, no_err) refl

  drain_due :
      (now : ℕ) (xs : List BmEnt) (env : E)
      → Ascends xs
      → ((drain m t now xs env).0 ≡ due_of now xs) × ((drain m t now xs env).1 ≡ not_due now xs)
  unfolding drain report
  drain_due now [] env up = (refl, refl)
  drain_due now (x ∷ xs) env up = elim (Bool-cases (ltb now x.due_ns)) [
    | inl later ↦
        let none = none_due now x.due_ns xs (ltb→lt _ _ later) up.0 in
        let stop = drain_stop m t now x xs env later in
        (
          ap (λ a. a.0) stop ∙ rw later (sym none.0),
          ap (λ a. a.1) stop ∙ rw later (ap (λ ys. x ∷ ys) (sym none.1)),
        )
    | inr due ↦
        let rest = drain_due now xs env up.1 in
        let go = drain_turn m t now x xs env due in
        (
          ap (λ a. a.0) go
              ∙ ap (λ j. report x.cookie j.0 (drain m t now xs j.1).0) (fair env)
              ∙ rw due (ap (λ cs. (x.cookie, 0) ∷ cs) rest.0),
          ap (λ a. a.1) go ∙ ap (λ j. (drain m t now xs j.1).1) (fair env) ∙ rw due rest.1,
        )
  ]

  -- Without fault injection, and with the due times ascending, one poll completes each waiting read
  -- that is due at that reading of the clock, with status 0 and in order, and keeps exactly the others.
  pub poll_completes_due :
      (k now : ℕ) (r : BmRing) (env : E)
      → IsRing k r
      → Ascends (waiting k r)
      → ((drain_from m t (suc (sub32 r.tail r.head)) now r env).0 ≡ due_of now (waiting k r))
        × (waiting k (drain_from m t (suc (sub32 r.tail r.head)) now r env).1
            ≡ not_due now (waiting k r))
  poll_completes_due k now r env v up =
      let same = drain_from-Agrees m t k now r env v in
      let all = drain_due now (waiting k r) env up in (same.0 ∙ all.0, same.1 ∙ all.1)

AllFrom-snoc :
    (d : ℕ) (xs : List BmEnt) (x : BmEnt) → AllFrom d xs → d ≤ x.due_ns → AllFrom d (xs ++ x ∷ [])
AllFrom-snoc d [] x h le = (le, tt)
AllFrom-snoc d (y ∷ ys) x h le = (h.0, AllFrom-snoc d ys x h.1 le)

-- No waiting read is due after `d`.
abbrev pub AllUpTo : ℕ → List BmEnt → Type 0
AllUpTo d [] = Unit
AllUpTo d (x ∷ xs) = (x.due_ns ≤ d) × AllUpTo d xs

Ascends-snoc :
    (xs : List BmEnt) (x : BmEnt) → Ascends xs → AllUpTo x.due_ns xs → Ascends (xs ++ x ∷ [])
Ascends-snoc [] x up le = (tt, tt)
Ascends-snoc (y ∷ ys) x up le = (AllFrom-snoc y.due_ns ys x up.0 le.0, Ascends-snoc ys x up.1 le.1)

-- Arming a timer in a ring that is not full adds it at the end of the waiting reads, and keeps the due
-- times ascending if it is due no earlier than they are.
pub arm_refines :
    (k due cookie : ℕ) (r : BmRing)
    → IsRing k r
    → sub32 r.tail r.head < 2 ^ k
    → Ascends (waiting k r)
    → AllUpTo due (waiting k r)
    → (waiting k (arm r due cookie) ≡ waiting k r ++ record { due_ns = due; cookie = cookie } ∷ [])
      × IsRing k (arm r due cookie)
      × Ascends (waiting k (arm r due cookie))
unfolding arm
arm_refines k due cookie r v free up le =
    let n = sub32 r.tail r.head in
    let x : BmEnt = record { due_ns = due; cookie = cookie } in
    let more : sub32 (add32 r.tail 1) r.head ≡ suc n =
      omega (arith, v, pow-le k 31 (omega (arith, v))) in
    let at : bit_and r.tail (r.cap - 1) ≡ cell k r.tail =
      ap (λ c. bit_and r.tail (c - 1)) v.cap ∙ bit_and-cell k r.tail in
    let grown : waiting k (arm r due cookie) ≡ waiting k r ++ x ∷ [] =
      ap₂ (λ c n. items k (update r.e c x) n r.head) at more
      ∙ items-push k r.e n r.head r.tail x (omega (arith, v)) free (omega (arith, v)) in
    (
      grown,
      record {
        cap = v.cap;
        small = v.small;
        head = v.head;
        tail = omega arith;
        room = omega (arith, more, free);
      },
      subst Ascends (sym grown) (Ascends-snoc (waiting k r) x up le),
    )
