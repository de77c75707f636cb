-- ===== src/Direct/Setup/Clean.antt =====
-- What `qp_create` and `qp_destroy` of control/nvmevirt/backend_direct.c allocate and free.
use gpu_fpga_dma.Base.{
  ℕ, zero, suc, ◌+◌, ◌-◌, ◌%◌, ◌≡◌, refl, ap, ◌∙◌, Bool, true, false, Option, none, some, ◌==◌,
  if◌then◌else◌, Array, update, arith, Bool-cases, inl, inr, update_self,
}
use gpu_fpga_dma.Direct.{Command, delete_cq, delete_sq, Completion, Dqp, Host}
use gpu_fpga_dma.Direct.Setup.{
  Dctrl, Ctl, Created, made, no_memory, io_error, admin_loops, admin_wait, admin_settle, admin_sync,
  set_qp, free_if, kfree_if, qp_free, qp_destroy, zero_qp,
}

abbrev pub held_if : Option ℕ → ℕ
held_if none = 0
held_if (some a) = 1

abbrev pub bit : Bool → ℕ
bit b = if b then 1 else 0

-- The number of live allocations, as the kernel's interface changes it.
pub record Balanced {E : Type 0} (h : Host E) (live : E → ℕ) : Type 0 where
  pub alloc :
      (env : E) → live (h.alloc_coherent env).1 ≡ live env + held_if (h.alloc_coherent env).0
  pub free : (env : E) (a : ℕ) → live (h.free_coherent env a) ≡ live env - 1
  pub kmalloc : (env : E) → live (h.kmalloc env).1 ≡ live env + bit (h.kmalloc env).0
  pub kfree : (env : E) → live (h.kfree env) ≡ live env - 1
  pub write : (env : E) (a v : ℕ) → live (h.writel env a v) ≡ live env
  pub peek : (env : E) (i : ℕ) → live (h.peek env i).1 ≡ live env

module _ {E : Type 0} (h : Host E) (live : E → ℕ) (law : Balanced h live) where
  -- What an admin command leaves alone.
  pub record Kept (t u : Ctl E) : Type 0 where
    pub same : live u.env ≡ live t.env
    pub qps : u.c.qp ≡ t.c.qp
    pub depth : u.c.io_qd ≡ t.c.io_qd

  wait_live : (f head phase : ℕ) (env : E) → live (admin_wait h f head phase env).1 ≡ live env
  unfolding admin_wait
  wait_live zero head phase env = refl
  wait_live (suc f) head phase env = elim (Bool-cases ((h.peek env head).0.status % 2 == phase)) [
    | inl new ↦ rw (new, admin_wait) (law.peek env head)
    | inr old ↦
        rw (old, admin_wait) (wait_live f head phase (h.peek env head).1 ∙ law.peek env head)
  ]

  settle-Kept :
      (t : Ctl E) (c : Dctrl) (o : Option Completion × E)
      → live o.1 ≡ live t.env
      → c.qp ≡ t.c.qp
      → c.io_qd ≡ t.c.io_qd
      → Kept t (admin_settle h c o).1
  unfolding admin_settle
  settle-Kept t c (none, env) e q d = record { same = e; qps = q; depth = d }
  settle-Kept t c (some cqe, env) e q d = record {
    same = law.write env _ _ ∙ e;
    qps = q;
    depth = d;
  }

  admin_sync-Kept : (cmd : Command) (t : Ctl E) → Kept t (admin_sync h cmd t).1
  unfolding admin_sync
  admin_sync-Kept cmd t =
      settle-Kept t _ (admin_wait h admin_loops t.c.acq_head t.c.acq_phase _)
        (wait_live admin_loops _ _ _ ∙ law.write t.env _ _) refl refl

  -- How a call of `qp_create` leaves the controller, the other queue pairs included.
  abbrev pub Outcome : ℕ → Ctl E → Created × Ctl E → Type 0
  Outcome sh t (made, u) =
      (live u.env ≡ live t.env + 5)
      × ((u.c.qp sh).created ≡ true)
      × (u.c.qp ≡ update t.c.qp sh (u.c.qp sh))
  Outcome sh t (no_memory, u) = (live u.env ≡ live t.env) × (u.c.qp ≡ update t.c.qp sh zero_qp)
  Outcome sh t (io_error, u) = (live u.env ≡ live t.env) × (u.c.qp ≡ update t.c.qp sh zero_qp)

  five_back :
      (sh : ℕ) (sq cq : ℕ) (t : Ctl E)
      → live (qp_free h sh (some sq) (some cq) true true true t).env ≡ live t.env - 5
  unfolding qp_free set_qp free_if kfree_if
  five_back sh sq cq t = omega (
    arith,
    law.kfree (h.kfree (h.kfree (h.free_coherent (h.free_coherent t.env sq) cq))),
    law.kfree (h.kfree (h.free_coherent (h.free_coherent t.env sq) cq)),
    law.kfree (h.free_coherent (h.free_coherent t.env sq) cq),
    law.free (h.free_coherent t.env sq) cq,
    law.free t.env sq,
  )

  -- From the queues on, five allocations are live and the queue pair of the shard is set.
  record Before (sh : ℕ) (t u : Ctl E) : Type 0 where
    held : live u.env ≡ live t.env + 5
    set : u.c.qp ≡ update t.c.qp sh (u.c.qp sh)

  -- After both delete commands.
  deleted : ℕ → Ctl E → Ctl E
  deleted sh t =
      (admin_sync h (delete_cq 0 (t.c.qp sh).qid)
        (admin_sync h (delete_sq 0 (t.c.qp sh).qid) t).1).1

  destroy_there :
      (sh : ℕ) (t : Ctl E)
      → (t.c.qp sh).created ≡ true
      → qp_destroy h sh t
        ≡ qp_free h sh
            (some (t.c.qp sh).sq_dma)
            (some (t.c.qp sh).cq_dma)
            true
            true
            true
            (deleted sh t)
  unfolding qp_destroy deleted
  destroy_there sh t e = rw e refl

  destroy_none : (sh : ℕ) (t : Ctl E) → (t.c.qp sh).created ≡ false → qp_destroy h sh t ≡ t
  unfolding qp_destroy
  destroy_none sh t e = rw e refl

  deleted-Kept : (sh : ℕ) (t : Ctl E) → Kept t (deleted sh t)
  unfolding deleted
  deleted-Kept sh t =
      let a = admin_sync-Kept (delete_sq 0 (t.c.qp sh).qid) t in
      let b =
        admin_sync-Kept (delete_cq 0 (t.c.qp sh).qid)
          (admin_sync h (delete_sq 0 (t.c.qp sh).qid) t).1 in
      record { same = b.same ∙ a.same; qps = b.qps ∙ a.qps; depth = b.depth ∙ a.depth }

  freed_qp :
      (sh a b : ℕ) (t : Ctl E)
      → (qp_free h sh (some a) (some b) true true true t).c.qp ≡ update t.c.qp sh zero_qp
  unfolding qp_free set_qp
  freed_qp sh a b t = refl

  -- `qp_destroy` frees the five allocations of a queue pair that exists and clears it, so that it is
  -- not destroyed again.
  pub qp_destroy_frees :
      (sh : ℕ) (t : Ctl E)
      → (t.c.qp sh).created ≡ true
      → (live (qp_destroy h sh t).env ≡ live t.env - 5)
        × ((qp_destroy h sh t).c.qp ≡ update t.c.qp sh zero_qp)
        × (qp_destroy h sh (qp_destroy h sh t) ≡ qp_destroy h sh t)
  qp_destroy_frees sh t e =
      let k = deleted-Kept sh t in
      let there = destroy_there sh t e in
      let qps : (qp_destroy h sh t).c.qp ≡ update t.c.qp sh zero_qp =
        ap (λ (u : Ctl E). u.c.qp) there
        ∙ freed_qp sh _ _ (deleted sh t)
        ∙ ap (λ (g : Array Dqp). update g sh zero_qp) k.qps in
      (
        ap (λ (u : Ctl E). live u.env) there
            ∙ five_back sh _ _ (deleted sh t)
            ∙ ap (λ n. n - 5) k.same,
        qps,
        destroy_none sh (qp_destroy h sh t) (
            ap (λ (g : Array Dqp). (g sh).created) qps
            ∙ ap (λ (q : Dqp). q.created) (update_self t.c.qp sh zero_qp)),
      )
