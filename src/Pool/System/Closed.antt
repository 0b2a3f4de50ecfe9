-- ===== src/Pool/System/Closed.antt =====
-- practise/thread_pool.c: what a closed pool comes to.
use learn_c_linux.Prelude.{
  ℕ, ◌≡◌, refl, true, [], ◌*◌, arith, append-nil, Yields-at, Bool-cases, inl, inr, ltb, ◌&&◌, sym,
  ◌∙◌,
}
use learn_c_linux.Prelude.Int.{ℤ}
use learn_c_linux.Pool.{task, Pool, returned, threadpool_add_task}
use learn_c_linux.Pool.Admin.{admin_shrink}
use learn_c_linux.Pool.Admin.Grow.{admin_grow-Grown}
use learn_c_linux.Pool.Fifo.{contents}
use learn_c_linux.Pool.System.{
  System, fetched, accepted, Step, work, submit, grow, shrink, close, Steps, here, next,
}
use learn_c_linux.Pool.System.Effect.{runs, threadpool_thread-Effect}
use learn_c_linux.Pool.System.Safety.{Inv, Step-Inv, total-get_elem?}

-- What does not change any more when the pool is closed.
pub record Frozen (s t : System) : Type 0 where
  pub closed : t.pool.shutdown ≡ true
  pub same_submitted : t.submitted ≡ s.submitted
  pub same_dequeued : t.dequeued ≡ s.dequeued
  pub same_queue : contents t.pool ≡ contents s.pool

Frozen-trans : {s t u : System} → Frozen s t → Frozen t u → Frozen s u
Frozen-trans e f = record {
  closed = f.closed;
  same_submitted = f.same_submitted ∙ e.same_submitted;
  same_dequeued = f.same_dequeued ∙ e.same_dequeued;
  same_queue = f.same_queue ∙ e.same_queue;
}

admin_shrink-same :
    (p : Pool) (b l : ℕ)
    → ((admin_shrink b l p).shutdown ≡ p.shutdown) × (contents (admin_shrink b l p) ≡ contents p)
unfolding admin_shrink
admin_shrink-same p b l = elim (Bool-cases (ltb (b * 2) l && ltb p.min_thr_num l)) [
  | inl more ↦ rw more (refl, refl)
  | inr enough ↦ rw enough (refl, refl)
]

-- A closed pool refuses every task.
threadpool_add_task-refuses :
    (p p' : Pool) (f a : ℕ) (r : ℤ)
    → p.shutdown ≡ true
    → threadpool_add_task p f a ≡ returned r p'
    → (p' ≡ p) × (accepted r (task f a) ≡ [])
unfolding threadpool_add_task
threadpool_add_task-refuses p p' f a r shut h = ground arith

Step-Frozen : {s t : System} → Inv s → s.pool.shutdown ≡ true → Step s t → Frozen s t
Step-Frozen {s} inv shut (work i {pc} {pc'} {p} at h) =
    let e =
      threadpool_thread-Effect s.pool p pc pc' inv.valid
        (omega (arith, inv.busy, total-get_elem? runs s.pcs i pc at)) h in
    let none_taken : fetched pc' ≡ [] = ground (arith, e.closed, shut) in
    record {
      closed = e.same_shutdown ∙ shut;
      same_submitted = refl;
      same_dequeued = rw none_taken (append-nil s.dequeued);
      same_queue = sym (e.queue ∙ rw none_taken refl);
    }
Step-Frozen {s} inv shut (submit f a {r} {p} h) =
    let (same, refused) = threadpool_add_task-refuses s.pool p f a r shut h in
    record {
      closed = rw same shut;
      same_submitted = rw refused (append-nil s.submitted);
      same_dequeued = refl;
      same_queue = rw same refl;
    }
Step-Frozen {s} inv shut (grow made missed kill esrch tid queue_size l {p} {add} h split) =
    let g = Yields-at (admin_grow-Grown kill esrch tid queue_size l s.pool inv.valid) h in
    record {
      closed = g.same_shutdown ∙ shut;
      same_submitted = refl;
      same_dequeued = refl;
      same_queue = ground arith;
    }
Step-Frozen {s} inv shut (shrink b l) =
    let same = admin_shrink-same s.pool b l in
    record {
      closed = same.0 ∙ shut;
      same_submitted = refl;
      same_dequeued = refl;
      same_queue = same.1;
    }
Step-Frozen {s} inv shut close = record {
  closed = refl;
  same_submitted = refl;
  same_dequeued = refl;
  same_queue = refl;
}

Steps-Inv : {s t : System} → Inv s → Steps s t → Inv t
Steps-Inv inv here = inv
Steps-Inv inv (next r st) = Step-Inv (Steps-Inv inv r) st

-- Once the pool is closed it stays closed, however it goes on: it accepts no task, and the tasks that wait in
-- its queue stay there, so that none of them is ever taken out and run. Tasks that a worker has taken out
-- before still run.
pub Steps-closed : {s t : System} → Inv s → s.pool.shutdown ≡ true → Steps s t → Frozen s t
Steps-closed inv shut here = record {
  closed = shut;
  same_submitted = refl;
  same_dequeued = refl;
  same_queue = refl;
}
Steps-closed inv shut (next r st) =
    let before = Steps-closed inv shut r in
    Frozen-trans before (Step-Frozen (Steps-Inv inv r) before.closed st)
