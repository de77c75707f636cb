-- ===== src/Middle/Keeps/Reap.antt =====
-- `co_reap`: the rows of a finished page are posted once, and the page is handed over.
use gpu_fpga_dma.Base.{
  ℕ, ◌+◌, ◌-◌, ◌<◌, ◌≡◌, ◌≢◌, refl, sym, ap, ◌∙◌, List, [], ◌∷◌, arith, ◌==◌, if◌then◌else◌,
  if-both, subst, update_self, ne→not_==, ==_refl,
}
use gpu_fpga_dma.Cookie.{gs_state, pend_error}
use gpu_fpga_dma.Shard.{Shard, PendPage, set_page}
use gpu_fpga_dma.Shard.Chain.{Chain, occ}
use gpu_fpga_dma.Shard.Pools.Inv.{Ghost, Held, Held-cong, flying}
use gpu_fpga_dma.Shard.Pools.Account.{Account, live, spent, waiting, waiting-out, asks}
use gpu_fpga_dma.Middle.{Params, Ops, Mid}
use gpu_fpga_dma.Middle.Reap.{hand_over, reap_page, reap_pages, reap}
use gpu_fpga_dma.Middle.Keeps.Back.{Posts, all_due, due_fit, deliver_page-Posts}
use gpu_fpga_dma.Middle.Keeps.Issue.{Books}

module _ {cap wcap : ℕ} {s : Shard} {waits : ℕ → ℕ} (slot : ℕ) (slots : List ℕ)
    (done : s.done_list ≡ slot ∷ slots) (v : Account cap wcap s [] waits) where
  abbrev chain : ℕ → List ℕ
  chain = live (spent s v.ghost) v.ghost.chain

  -- A slot on the done list is nowhere else.
  pub finished :
      (slot < cap)
      × (occ slot s.pend_free ≡ 0)
      × (spent s v.ghost slot ≡ 0)
      × (flying (s.pend slot) ≡ 0)
      × (occ slot slots ≡ 0)
  finished = ground (arith, v.pools.slots slot, ap (occ slot) done, ==_refl slot)

  -- The page on the list of returned pages.
  abbrev sent_back : Shard
  sent_back = record s { done_list = slots; pend_return = slot ∷ s.pend_return }

  -- The page on the list of pages that the GPU still reads.
  abbrev held_back : ℕ → Shard
  held_back head =
      record (set_page s slot
        (record (s.pend slot) { gpu_wm = head; gpu_held_next = s.gpu_held })) {
          done_list = slots;
          gpu_held = slot;
        }

  delivered :
      (out : ℕ → ℕ)
      → (out slot ≢ 0)
      → ((i : ℕ) → slot ≢ i → out i ≡ spent s v.ghost i)
      → (r : ℕ)
      → waiting cap s.warena (live out v.ghost.chain) r
        ≡ waits r - asks r s.warena (v.ghost.chain slot)
  delivered out gone same r = omega (
    arith,
    v.waits_for r,
    ap (asks r s.warena) whole,
    waiting-out cap s.warena s.warena chain (live out v.ghost.chain) slot r finished.0
        (rw (ne→not_== (out slot) 0 gone) refl)
        (λ i ne. ap (λ n. if n == 0 then v.ghost.chain i else []) (same i ne)) (λ w. refl),
  )
    where
      whole : chain slot ≡ v.ghost.chain slot
      whole = rw finished.2 refl

  sent_back-Account :
      Account cap wcap sent_back [] (λ r. waits r - asks r s.warena (v.ghost.chain slot))
  sent_back-Account = record {
    ghost = v.ghost;
    pools = record {
      few_slots = v.pools.few_slots;
      few_waiters = v.pools.few_waiters;
      free_chain = v.pools.free_chain;
      chains = v.pools.chains;
      bare = v.pools.bare;
      nodes = v.pools.nodes;
      counted = v.pools.counted;
      sizes = v.pools.sizes;
      slots = λ i. omega (arith, v.pools.slots i, ap (occ i) done);
      held_chain = v.pools.held_chain;
    };
    in_hand = v.in_hand;
    waits_for =
        delivered (spent sent_back v.ghost) (ground (arith, ==_refl slot)) (λ i ne. ground arith);
  }

  abbrev held_ghost : Ghost
  held_ghost = record (v.ghost) { held = slot ∷ v.ghost.held }

  held_back-Account :
      (head : ℕ)
      → Account cap wcap (held_back head) [] (λ r. waits r - asks r s.warena (v.ghost.chain slot))
  held_back-Account head = record {
    ghost = held_ghost;
    pools = record {
      few_slots = v.pools.few_slots;
      few_waiters = v.pools.few_waiters;
      free_chain = v.pools.free_chain;
      chains = λ i h o.
          subst (λ a. Chain s.warena a (v.ghost.chain i)) (ground arith) (v.pools.chains i h o);
      bare = v.pools.bare;
      nodes = v.pools.nodes;
      counted = v.pools.counted;
      sizes = v.pools.sizes;
      slots = λ i. ground (arith, v.pools.slots i, ap (occ i) done);
      held_chain = (
        refl,
        ground (arith, finished.0, v.pools.few_slots),
        subst (λ (q : PendPage). Held (held_back head).pend q.gpu_held_next v.ghost.held)
            (sym (update_self s.pend slot _))
            (Held-cong s.pend (held_back head).pend s.gpu_held v.ghost.held
              (λ i o. ground (arith, finished.2)) v.pools.held_chain),
      );
    };
    in_hand = v.in_hand;
    waits_for =
        delivered (spent (held_back head) held_ghost) (ground (arith, ==_refl slot))
          (λ i ne. ground arith);
  }

module _ {E : Type 0} (ops : Ops E) (p : Params) (posted : E → ℕ → ℕ) (law : Posts ops posted)
    (n : ℕ → ℕ) where
  -- The state with the slots `ds` still to be reaped.
  abbrev still : List ℕ → Mid E → Mid E
  still ds m = record m { shard = record (m.shard) { done_list = ds } }

  reap_page-done :
      (m : Mid E) (slot : ℕ) → ((reap_page ops p m slot).shard).done_list ≡ (m.shard).done_list
  unfolding reap_page hand_over
  reap_page-done m slot =
      if-both (λ (s : Shard). s.done_list ≡ (m.shard).done_list) p.gpupull _ _ (λ _. refl)
        (λ _. refl)

  -- What the waiters of the page lose, the posted completions gain.
  paid :
      (slot : ℕ) (slots : List ℕ) (m : Mid E) (v : Books p posted n (still (slot ∷ slots) m))
      (r : ℕ)
      → v.waits r
          - asks r (m.shard).warena (v.account.ghost.chain slot)
          + posted (reap_page ops p m slot).env r
        ≡ v.waits r + posted m.env r
  unfolding reap_page
  paid slot slots m v r =
      let f = finished slot slots refl v.account in
      omega (
        arith,
        all_due p v.account slot f.0 f.1 f.2 r,
        due_fit p v.account slot f.0 f.1 r,
        deliver_page-Posts p v.account slot f.0 f.1 ops posted law m.env
            (if gs_state ((m.shard).pend slot).genstate == pend_error then 1 else 0) r,
      )

  reap_page-Books :
      (slot : ℕ) (slots : List ℕ) (m : Mid E)
      → Books p posted n (still (slot ∷ slots) m)
      → Books p posted n (still slots (reap_page ops p m slot))
  unfolding reap_page hand_over
  reap_page-Books slot slots m v =
      if-both
        (λ (s : Shard). Books p posted n (
          still slots (record {
            shard = s;
            stats = (reap_page ops p m slot).stats;
            env = (reap_page ops p m slot).env;
          })))
        p.gpupull _ _
        (λ _. record {
          waits = λ r. v.waits r - asks r (m.shard).warena (v.account.ghost.chain slot);
          account = held_back-Account slot slots refl v.account _;
          balance = λ r. omega (arith, v.balance r, paid slot slots m v r);
        })
        (λ _. record {
          waits = λ r. v.waits r - asks r (m.shard).warena (v.account.ghost.chain slot);
          account = sent_back-Account slot slots refl v.account;
          balance = λ r. omega (arith, v.balance r, paid slot slots m v r);
        })

  reap_pages-Books :
      (slots : List ℕ) (m : Mid E)
      → (m.shard).done_list ≡ []
      → Books p posted n (still slots m)
      → Books p posted n (reap_pages ops p m slots)
  unfolding reap_pages
  reap_pages-Books [] m e v = subst (λ ds. Books p posted n (still ds m)) (sym e) v
  reap_pages-Books (slot ∷ slots) m e v =
      reap_pages-Books slots (reap_page ops p m slot) (reap_page-done m slot ∙ e)
        (reap_page-Books slot slots m v)

  -- `co_reap`
  pub reap-Books : (m : Mid E) → Books p posted n m → Books p posted n (reap ops p m)
  unfolding reap
  reap-Books m v = reap_pages-Books (m.shard).done_list (still [] m) refl v
