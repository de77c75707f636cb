-- ===== src/Channel/Credits.antt =====
-- The loop of `chmodel_request` spends what is asked for, as far as there are credits.
use gpu_fpga_dma.Base.{
  ℕ, zero, suc, ◌+◌, ◌-◌, ◌/◌, ◌%◌, ◌≤◌, ◌<◌, ◌≡◌, ◌⊎◌, inl, inr, refl, sym, ◌∙◌, ap, subst, true,
  false, arith, min, ltb, ◌==◌, if◌then◌else◌, leb, if-both, Bool-cases, ==→eq, update_self,
  update_ne,
}
use gpu_fpga_dma.Base.Words.{add32, add64, sub64, u32}
use gpu_fpga_dma.Shard.Chain.{total, total-update}
use native.Mathlib.Decide.{dec_lt, ℕ_discrete}
use native.Mathlib.Nat.{mod-lt, mod-eq_of_lt, mod_self}
use gpu_fpga_dma.Channel.{
  Channel, Spend, spend, conclude, spend_from, spend_slot, nr_credit_entries, used, move_head,
  passed, transfer, chmodel_request, unit_time_interval, unit_xfer_size,
}

-- How many slots are left from `pos` to the one before `head`.
abbrev pub ahead : ℕ → ℕ → ℕ → ℕ
ahead n head pos = if ltb pos head then head - pos else n + head - pos

-- What the loop does: the credits of the ring go down by what is spent, no slot gains any, and either
-- all is spent or the whole ring from the first slot on is.
pub record Spent (n head : ℕ) (s t : Spend) : Type 0 where
  pub conserved : total n t.avail + s.remaining ≡ total n s.avail + t.remaining
  pub never_more : (i : ℕ) → t.avail i ≤ s.avail i
  pub inside : t.pos < n
  pub finished : (t.remaining ≡ 0) ⊎ ((t.pos + 1) % n ≡ head)

step_place : (n p : ℕ) → p < n → ((p + 1) % n ≡ (if ltb (p + 1) n then p + 1 else 0))
step_place n p lt = elim (dec_lt (p + 1) n) [
  | yes h ↦ mod-eq_of_lt h ∙ ground arith
  | no h ↦ let e : p + 1 ≡ n = omega (arith, h) in ap (λ k. k % n) e ∙ mod_self n ∙ ground arith
]

slot_total :
    (n : ℕ) (s : Spend)
    → s.pos < n
    → total n (spend_slot s).avail + s.remaining ≡ total n s.avail + (spend_slot s).remaining
unfolding spend_slot
slot_total n s lt =
    omega (arith, total-update n s.avail s.pos (s.avail s.pos - min s.remaining (s.avail s.pos)) lt)

slot_less : (s : Spend) (i : ℕ) → (spend_slot s).avail i ≤ s.avail i
unfolding spend_slot
slot_less s i = elim (ℕ_discrete s.pos i) [
  | yes e ↦
      rw (← e, update_self s.avail s.pos (s.avail s.pos - min s.remaining (s.avail s.pos)))
        (omega arith)
  | no ne ↦
      rw (update_ne s.avail (s.avail s.pos - min s.remaining (s.avail s.pos)) ne) (omega arith)
]

slot_pos : (s : Spend) → (spend_slot s).pos ≡ s.pos
unfolding spend_slot
slot_pos s = refl

abbrev next_slot : ℕ → Spend → Spend
next_slot n s = record (spend_slot s) { pos = (s.pos + 1) % n; delay = add32 s.delay 1 }

spent_all :
    (n f head : ℕ) (s : Spend)
    → ((spend_slot s).remaining == 0) ≡ true
    → spend n (suc f) head s ≡ spend_slot s
unfolding spend
spent_all n f head s e = rw (e, spend) refl

no_slot_left :
    (n f head : ℕ) (s : Spend)
    → ((spend_slot s).remaining == 0) ≡ false
    → ((s.pos + 1) % n == head) ≡ true
    → spend n (suc f) head s ≡ spend_slot s
unfolding spend
no_slot_left n f head s e e' = rw (e, e', spend) refl

later_slot :
    (n f head : ℕ) (s : Spend)
    → ((spend_slot s).remaining == 0) ≡ false
    → ((s.pos + 1) % n == head) ≡ false
    → spend n (suc f) head s ≡ spend n f head (next_slot n s)
unfolding spend
later_slot n f head s e e' = rw (e, e', spend) refl

-- As many turns are enough as there are slots from the first one to the one before the head.
pub spend-Spent :
    (n f head : ℕ) (s : Spend)
    → head < n
    → s.pos < n
    → ahead n head s.pos ≤ f
    → Spent n head s (spend n f head s)
spend-Spent n zero head s h p le = absurd (ground arith)
spend-Spent n (suc f) head s h p le = elim (Bool-cases ((spend_slot s).remaining == 0)) [
  | inl e ↦ subst (Spent n head s) (sym (spent_all n f head s e)) (record {
    conserved = slot_total n s p;
    never_more = slot_less s;
    inside = omega (arith, slot_pos s, p);
    finished = inl (==→eq (spend_slot s).remaining 0 e);
  })
  | inr e ↦ elim (Bool-cases ((s.pos + 1) % n == head)) [
    | inl e' ↦ subst (Spent n head s) (sym (no_slot_left n f head s e e')) (record {
      conserved = slot_total n s p;
      never_more = slot_less s;
      inside = omega (arith, slot_pos s, p);
      finished = inr (ap (λ q. (q + 1) % n) (slot_pos s) ∙ ==→eq ((s.pos + 1) % n) head e');
    })
    | inr e' ↦
        let place = step_place n s.pos p in
        let t = next_slot n s in
        let v =
          spend-Spent n f head t h (mod-lt (s.pos + 1) (omega (arith, h)))
            (ground (arith, place)) in
        subst (Spent n head s) (sym (later_slot n f head s e e')) (record {
          conserved = omega (arith, slot_total n s p, v.conserved);
          never_more = λ i. omega (arith, slot_less s i, v.never_more i);
          inside = v.inside;
          finished = v.finished;
        })
  ]
]

-- The head is a slot of the ring, and no more slots are in use than there are.
pub record IsChannel (ch : Channel) : Type 0 where
  pub head_in : ch.head < nr_credit_entries
  pub used_in : ch.valid_len ≤ nr_credit_entries

used_fits :
    (head pos : ℕ)
    → head < nr_credit_entries
    → pos < nr_credit_entries
    → used head pos ≤ nr_credit_entries
unfolding used
used_fits head pos h p = ground arith

pub move_head-IsChannel : (now : ℕ) (ch : Channel) → IsChannel ch → IsChannel (move_head now ch)
unfolding move_head passed
move_head-IsChannel now ch v = record {
  head_in = omega (arith, v.head_in);
  used_in = omega (arith, v.used_in);
}

start_place : (ch : Channel) (units offs : ℕ) → (spend_from ch units offs).pos < nr_credit_entries
unfolding spend_from
start_place ch units offs = omega arith

conclude-IsChannel :
    (ch : Channel) (request_time units : ℕ) (s : Spend)
    → IsChannel ch
    → s.pos < nr_credit_entries
    → IsChannel (conclude ch request_time units s).1
unfolding conclude
conclude-IsChannel ch request_time units s v p = record {
  head_in = v.head_in;
  used_in = ground (arith, v.used_in, used_fits ch.head s.pos v.head_in p);
}

-- With a turn for each slot of the ring, the loop of a request for `units` at the slot `offs` after the
-- head ends by its own tests: it spends all that is asked for, or it reaches the slot before the
-- head. The credits of the ring go down by exactly what is spent, and no slot gains any.
pub transfer-Spent :
    (ch : Channel) (units offs : ℕ)
    → IsChannel ch
    → Spent nr_credit_entries ch.head
        (spend_from ch units offs)
        (spend nr_credit_entries nr_credit_entries ch.head (spend_from ch units offs))
transfer-Spent ch units offs v =
    let place = start_place ch units offs in
    spend-Spent nr_credit_entries nr_credit_entries ch.head (spend_from ch units offs) v.head_in
      place (ground (arith, v.head_in, place))

transfer-IsChannel :
    (ch : Channel) (request_time units offs : ℕ)
    → IsChannel ch
    → IsChannel (transfer ch request_time units offs).1
unfolding transfer
transfer-IsChannel ch request_time units offs v =
    conclude-IsChannel ch request_time units
      (spend nr_credit_entries nr_credit_entries ch.head (spend_from ch units offs)) v
      (transfer-Spent ch units offs v).inside

-- Whatever the clock, the time and the length of a request are, `chmodel_request` keeps the head inside the
-- ring and never counts more slots in use than there are, which its assertion tests.
pub chmodel_request-IsChannel :
    (ch : Channel) (now request_time length : ℕ)
    → IsChannel ch
    → IsChannel (chmodel_request ch now request_time length).1
unfolding chmodel_request
chmodel_request-IsChannel ch now request_time length v =
    let t = move_head now ch in
    let moved = move_head-IsChannel now ch v in
    let units = u32 (add64 length (unit_xfer_size - 1) / unit_xfer_size) in
    let offs = u32 (sub64 (request_time / unit_time_interval) (now / unit_time_interval)) in
    let far = leb nr_credit_entries offs in
    let done = transfer t request_time units offs in
    if-both (λ (r : ℕ × Channel). IsChannel r.1) (ltb request_time now) (request_time, t)
      (if far then (request_time, t) else done) (λ _. moved)
      (λ _.
        if-both (λ (r : ℕ × Channel). IsChannel r.1) far (request_time, t) done (λ _. moved)
          (λ _. transfer-IsChannel t request_time units offs moved))
