-- ===== src/Middle/Keeps/Release.antt =====
-- `co_gpu_reclaim`: the walk over the held pages unlinks some of them and keeps the list whole.
use gpu_fpga_dma.Base.{
  ℕ, zero, suc, ◌+◌, ◌≤◌, ◌≡◌, ◌≢◌, refl, sym, ap, ◌∙◌, List, [], ◌∷◌, ◌++◌, arith, ◌==◌, ◌||◌,
  Bool, if◌then◌else◌, if-both, subst, Array, update_ne, ne→not_==, Bool-cases, inl, inr,
}
use gpu_fpga_dma.Base.Words.{sub32, signed32_nonneg}
use gpu_fpga_dma.Shard.{Shard, PendPage, co_nil}
use gpu_fpga_dma.Shard.Chain.{Chain, occ, occ-append}
use gpu_fpga_dma.Shard.Pools.Inv.{Ghost, Held, Held-cong, flying}
use gpu_fpga_dma.Shard.Pools.Account.{Account, spent, waiting-live_cong}
use gpu_fpga_dma.Middle.{Params, Mid}
use gpu_fpga_dma.Middle.Reap.{Link, first, behind, set_link, reclaim_from, gpu_reclaim}
use gpu_fpga_dma.Middle.Keeps.Issue.{Books, unissued, binned}
use gpu_fpga_dma.Middle.Keeps.Held.{cut, far, last, last-snoc, relinked}

module _ {cap wcap : ℕ} {s : Shard} {waits : ℕ → ℕ} (v : Account cap wcap s [] waits) (x : ℕ)
    (f : Array PendPage) (h : ℕ) (held : List ℕ)
    (heads : (i : ℕ) → (f i).first_waiter ≡ (s.pend i).first_waiter)
    (flies : (i : ℕ) → flying (f i) ≡ flying (s.pend i))
    (one_less : (i : ℕ) → occ i held + (if x == i then 1 else 0) ≡ occ i v.ghost.held)
    (chain : Held f h held) where
  -- The shard once page `x` is off the held list and on the list of returned pages.
  abbrev released : Shard
  released = record s { pend = f; gpu_held = h; pend_return = x ∷ s.pend_return }

  released-Account : Account cap wcap released [] waits
  released-Account =
      let g : Ghost = record (v.ghost) { held = held } in
      let same : (i : ℕ) → spent released g i ≡ spent s v.ghost i =
        λ i. omega (arith, one_less i) in
      record {
        ghost = g;
        pools = record {
          few_slots = v.pools.few_slots;
          few_waiters = v.pools.few_waiters;
          free_chain = v.pools.free_chain;
          chains = λ i b o.
              subst (λ a. Chain s.warena a (v.ghost.chain i)) (sym (heads i))
                (v.pools.chains i b o);
          bare = v.pools.bare;
          nodes = v.pools.nodes;
          counted = v.pools.counted;
          sizes = v.pools.sizes;
          slots = λ i. omega (arith, v.pools.slots i, one_less i, flies i);
          held_chain = chain;
        };
        in_hand = v.in_hand;
        waits_for = λ r.
            waiting-live_cong cap s.warena (spent s v.ghost) _ v.ghost.chain r same ∙ v.waits_for r;
      }

-- What the walk leaves alone.
abbrev beside : Shard → Shard → Shard
beside s t = record t { pend = s.pend; gpu_held = s.gpu_held; pend_return = s.pend_return }

record Released (cap wcap : ℕ) (s t : Shard) (waits : ℕ → ℕ) : Type 0 where
  account : Account cap wcap t [] waits
  rest : beside s t ≡ s

-- `link` is where the address of the page behind `ks` is kept.
abbrev At : Link → List ℕ → Type 0
At first ks = ks ≡ []
At (behind i) ks = (k : ℕ) × (more : List ℕ) × (ks ≡ k ∷ more) × (last k more ≡ i)

At-snoc : (link : Link) (ks : List ℕ) (x : ℕ) → At link ks → At (behind x) (ks ++ (x ∷ []))
unfolding last
At-snoc link [] x a = (x, [], refl, refl)
At-snoc link (k ∷ ks) x a = (k, ks ++ (x ∷ []), refl, last-snoc k ks x)

snoc-append : (ks xs : List ℕ) (x : ℕ) → (ks ++ (x ∷ [])) ++ xs ≡ ks ++ (x ∷ xs)
snoc-append [] xs x = refl
snoc-append (k ∷ ks) xs x = ap (λ t. k ∷ t) (snoc-append ks xs x)

-- A page off the list, by a write to the link before it.
abbrev unlinked : Shard → Link → ℕ → Shard
unlinked s link x = record (set_link s link (s.pend x).gpu_held_next) {
  pend_return = x ∷ s.pend_return;
}

reclaim_none :
    (force : Bool) (tail : ℕ) (link : Link) (idx : ℕ) (s : Shard)
    → reclaim_from zero force tail link idx s ≡ s
unfolding reclaim_from
reclaim_none force tail link idx s = refl

reclaim_stop :
    (f : ℕ) (force : Bool) (tail : ℕ) (link : Link) (s : Shard)
    → reclaim_from f force tail link co_nil s ≡ s
unfolding reclaim_from
reclaim_stop zero force tail link s = refl
reclaim_stop (suc f) force tail link s = refl

reclaim_step :
    (f : ℕ) (force : Bool) (tail : ℕ) (link : Link) (x : ℕ) (s : Shard)
    → x ≢ co_nil
    → reclaim_from (suc f) force tail link x s ≡ (
        if force || signed32_nonneg (sub32 tail (s.pend x).gpu_wm)
        then reclaim_from f force tail link (s.pend x).gpu_held_next (unlinked s link x)
        else reclaim_from f force tail (behind x) (s.pend x).gpu_held_next s)
unfolding reclaim_from
reclaim_step f force tail link x s ne =
    elim (Bool-cases (force || signed32_nonneg (sub32 tail (s.pend x).gpu_wm))) [
      | inl e ↦ rw (ne→not_== x co_nil ne, reclaim_from, e) refl
      | inr e ↦ rw (ne→not_== x co_nil ne, reclaim_from, e) refl
    ]

-- What one unlinking leaves: the pages `ks` before the link and `xs` behind.
record Unlinked (cap wcap : ℕ) (s t : Shard) (waits : ℕ → ℕ) (next : ℕ) (ks xs : List ℕ)
    : Type 0 where
  account : Account cap wcap t [] waits
  held : account.ghost.held ≡ ks ++ xs
  suffix : Held t.pend next xs
  rest : beside s t ≡ s

module _ {cap wcap : ℕ} {waits : ℕ → ℕ} (s : Shard) (v : Account cap wcap s [] waits) (x : ℕ)
    (xs : List ℕ) (c : Held s.pend (s.pend x).gpu_held_next xs) where
  abbrev next : ℕ
  next = (s.pend x).gpu_held_next

  unlink_first : v.ghost.held ≡ x ∷ xs → Unlinked cap wcap s (unlinked s first x) waits next [] xs
  unfolding set_link released-Account
  unlink_first e = record {
    account =
        released-Account v x s.pend next xs (λ i. refl) (λ i. refl)
          (λ i. omega (arith, ap (occ i) e)) c;
    held = refl;
    suffix = c;
    rest = refl;
  }

  unlink_behind :
      (k : ℕ) (ks : List ℕ)
      → v.ghost.held ≡ (k ∷ ks) ++ (x ∷ xs)
      → Unlinked cap wcap s (unlinked s (behind (last k ks)) x) waits next (k ∷ ks) xs
  unfolding set_link released-Account
  unlink_behind k ks e =
      let i = last k ks in
      let f = relinked s.pend i next in
      let once : (j : ℕ) → occ j ((k ∷ ks) ++ (x ∷ xs)) ≤ 1 =
        λ j. ground (arith, v.pools.slots j, ap (occ j) e) in
      record {
        account =
            released-Account v x f s.gpu_held ((k ∷ ks) ++ xs) (λ j. ground arith)
              (λ j. ground arith)
              (λ j. omega (arith, ap (occ j) e, occ-append j ks (x ∷ xs), occ-append j ks xs))
              (cut s.pend s.gpu_held k ks x xs once
                (subst (Held s.pend s.gpu_held) e v.pools.held_chain));
        held = refl;
        suffix =
            Held-cong s.pend f next xs
              (λ j o.
                ap (λ (q : PendPage). q.gpu_held_next)
                  (update_ne s.pend _ (far k ks x xs once j o)))
              c;
        rest = refl;
      }

  unlink_lem :
      (link : Link) (ks : List ℕ)
      → v.ghost.held ≡ ks ++ (x ∷ xs)
      → At link ks
      → Unlinked cap wcap s (unlinked s link x) waits next ks xs
  unlink_lem first ks e a =
      subst (λ ls. Unlinked cap wcap s (unlinked s first x) waits next ls xs) (sym a)
        (unlink_first (e ∙ ap (λ ls. ls ++ (x ∷ xs)) a))
  unlink_lem (behind i) ks e (k, more, el, ei) =
      subst (λ j. Unlinked cap wcap s (unlinked s (behind j) x) waits next ks xs) ei
        (subst (λ ls. Unlinked cap wcap s (unlinked s (behind (last k more)) x) waits next ls xs)
          (sym el) (unlink_behind k more (e ∙ ap (λ ls. ls ++ (x ∷ xs)) el)))

module _ {cap wcap : ℕ} {waits : ℕ → ℕ} where
  walk :
      (fuel : ℕ) (force : Bool) (tail : ℕ) (link : Link) (idx : ℕ) (ks xs : List ℕ) (s : Shard)
      (v : Account cap wcap s [] waits)
      → v.ghost.held ≡ ks ++ xs
      → At link ks
      → Held s.pend idx xs
      → Released cap wcap s (reclaim_from fuel force tail link idx s) waits
  walk fuel force tail link idx ks [] s v e a c =
      rw (c, reclaim_stop fuel force tail link s) (record { account = v; rest = refl })
  walk zero force tail link idx ks (x ∷ xs) s v e a c =
      rw (reclaim_none force tail link idx s) (record { account = v; rest = refl })
  walk (suc fuel) force tail link idx ks (x ∷ xs) s v e a (q, ne, c) =
      let u = unlink_lem s v x xs c link ks e a in
      rw (q, reclaim_step fuel force tail link x s ne)
        (if-both (λ t. Released cap wcap s t waits)
          (force || signed32_nonneg (sub32 tail (s.pend x).gpu_wm)) _ _
          (λ _.
            let w =
              walk fuel force tail link (s.pend x).gpu_held_next ks xs _ u.account u.held a
                u.suffix in
            record { account = w.account; rest = ap (beside s) w.rest ∙ u.rest })
          (λ _.
            walk fuel force tail (behind x) (s.pend x).gpu_held_next (ks ++ (x ∷ [])) xs s v
              (e ∙ sym (snoc-append ks xs x)) (At-snoc link ks x a) c))

-- `co_gpu_reclaim` keeps the books, and the list of held pages whole, whatever pages it releases.
pub gpu_reclaim-Books :
    {E : Type 0} (p : Params) (posted : E → ℕ → ℕ) (n : ℕ → ℕ) (tail : ℕ) (force : Bool) (m : Mid E)
    → Books p posted n m
    → Books p posted n (record m { shard = gpu_reclaim p tail force m.shard })
unfolding gpu_reclaim
gpu_reclaim-Books p posted n tail force m v =
    let w =
      walk p.pend_cap force (if force then 0 else tail) first (m.shard).gpu_held []
        v.account.ghost.held m.shard v.account refl refl v.account.pools.held_chain in
    record {
      waits = v.waits;
      account = w.account;
      balance = λ r.
          subst (λ (t : Shard). unissued t r + binned p t r + v.waits r + posted m.env r ≡ n r)
            (sym w.rest) (v.balance r);
    }
