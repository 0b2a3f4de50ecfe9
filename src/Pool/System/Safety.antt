-- ===== src/Pool/System/Safety.antt =====
-- What holds in every state that the pool of practise/thread_pool.c can reach.
use learn_c_linux.Prelude.{
  ℕ, zero, suc, ◌+◌, ◌≤◌, ◌≡◌, ◌⊎◌, refl, true, some, List, [], ◌∷◌, ◌++◌, arith, length,
  length-append, length-set, length-replicate, get_elem?, set, replicate, total, total-set,
  total-append, total-replicate, Yields-at, Bool-cases, inl, inr, ltb, ◌&&◌, ◌*◌, append_assoc,
  append-nil, ap, sym, ◌∙◌,
}
use learn_c_linux.Prelude.Int.{ℤ}
use learn_c_linux.Pool.{
  Task, task, Pool, Pc, ready, threadpool_thread, returned, threadpool_add_task, put_task,
}
use learn_c_linux.Pool.Inv.{IsValid, threadpool_thread-IsValid, threadpool_add_task-IsValid}
use learn_c_linux.Pool.Admin.{admin_shrink}
use learn_c_linux.Pool.Admin.Grow.{Grown, admin_grow-Grown}
use learn_c_linux.Pool.Fifo.{contents, put_task-contents}
use learn_c_linux.Pool.System.{
  System, fetched, accepted, Step, work, submit, grow, shrink, close, start_of, Reach, start, later,
}
use learn_c_linux.Pool.System.Effect.{runs, ends, threadpool_thread-Effect}

pub record Inv (s : System) : Type 0 where
  pub valid : IsValid s.pool
  pub fifo : s.submitted ≡ s.dequeued ++ contents s.pool
  pub busy : s.pool.busy_thr_num ≡ total runs s.pcs
  pub live :
      (s.pool.shutdown ≡ true) ⊎ (s.pool.live_thr_num + total ends s.pcs ≡ length s.pcs + s.failed)

-- One element weighs no more than all.
pub total-get_elem? :
    (w : Pc → ℕ) (pcs : List Pc) (i : ℕ) (pc : Pc) → get_elem? pcs i ≡ some pc → w pc ≤ total w pcs
total-get_elem? w [] i pc h = ground arith
total-get_elem? w (x ∷ xs) zero pc h = ground arith
total-get_elem? w (x ∷ xs) (suc i) pc h = omega (arith, total-get_elem? w xs i pc h)

regroup :
    (submitted dequeued new rest queue : List Task)
    → submitted ≡ dequeued ++ queue
    → queue ≡ new ++ rest
    → submitted ≡ (dequeued ++ new) ++ rest
regroup submitted dequeued new rest queue h e =
    h ∙ (ap (λ q. dequeued ++ q) e ∙ sym (append_assoc dequeued new rest))

work-Inv :
    (s : System) (i : ℕ) (pc pc' : Pc) (p : Pool)
    → Inv s
    → get_elem? s.pcs i ≡ some pc
    → threadpool_thread s.pool pc ≡ some (p, pc')
    → Inv (record s { pool = p; pcs = set s.pcs i pc'; dequeued = s.dequeued ++ fetched pc' })
work-Inv s i pc pc' p inv at h =
    let e =
      threadpool_thread-Effect s.pool p pc pc' inv.valid
        (omega (arith, inv.busy, total-get_elem? runs s.pcs i pc at)) h in
    record {
      valid = threadpool_thread-IsValid s.pool p pc pc' inv.valid h;
      fifo =
          regroup s.submitted s.dequeued (fetched pc') (contents p) (contents s.pool) inv.fifo
            e.queue;
      busy = omega (arith, e.busy, inv.busy, total-set runs s.pcs i pc pc' at);
      live = ground (
        arith,
        e.live,
        e.same_shutdown,
        inv.live,
        total-set ends s.pcs i pc pc' at,
        length-set s.pcs i pc',
      );
    }

-- What `threadpool_add_task` leaves, whether it takes the task or refuses it.
record Submitted (p : Pool) (t : Task) (r : ℤ) (p' : Pool) : Type 0 where
  queue : contents p' ≡ contents p ++ accepted r t
  busy : p'.busy_thr_num ≡ p.busy_thr_num
  live : p'.live_thr_num ≡ p.live_thr_num
  shut : p'.shutdown ≡ p.shutdown

put_task-same :
    (p p' : Pool) (f a : ℕ) (r : ℤ)
    → put_task p f a ≡ returned r p'
    → (p'.busy_thr_num ≡ p.busy_thr_num)
      × (p'.live_thr_num ≡ p.live_thr_num)
      × (p'.shutdown ≡ p.shutdown)
unfolding put_task
put_task-same p p' f a r h = ground arith

threadpool_add_task-Submitted :
    (p p' : Pool) (f a : ℕ) (r : ℤ)
    → IsValid p
    → threadpool_add_task p f a ≡ returned r p'
    → Submitted p (task f a) r p'
unfolding threadpool_add_task
threadpool_add_task-Submitted p p' f a r v h =
    ground
      (arith, put_task-contents p p' f a r v, put_task-same p p' f a r, append-nil (contents p))

submit-Inv :
    (s : System) (f a : ℕ) (r : ℤ) (p : Pool)
    → Inv s
    → threadpool_add_task s.pool f a ≡ returned r p
    → Inv (record s { pool = p; submitted = s.submitted ++ accepted r (task f a) })
submit-Inv s f a r p inv h =
    let e = threadpool_add_task-Submitted s.pool p f a r inv.valid h in
    let new = accepted r (task f a) in
    record {
      valid = threadpool_add_task-IsValid s.pool p f a r inv.valid h;
      fifo =
          ap (λ q. q ++ new) inv.fifo
          ∙ (append_assoc s.dequeued (contents s.pool) new
              ∙ ap (λ q. s.dequeued ++ q) (sym e.queue));
      busy = omega (arith, e.busy, inv.busy);
      live = ground (arith, e.live, e.shut, inv.live);
    }

grow-Inv :
    (s : System) (p : Pool) (add made missed : ℕ)
    → Inv s
    → Grown s.pool 0 (p, add)
    → made + missed ≡ add
    → Inv (record s { pool = p; pcs = s.pcs ++ replicate made ready; failed = s.failed + missed })
grow-Inv s p add made missed inv g split =
    let new = replicate made ready in
    let same : contents p ≡ contents s.pool = ground arith in
    record {
      valid = g.valid;
      fifo = inv.fifo ∙ ap (λ q. s.dequeued ++ q) (sym same);
      busy = omega (
        arith,
        inv.busy,
        g.same_busy,
        total-append runs s.pcs new,
        total-replicate runs made ready,
      );
      live = ground (
        arith,
        g.counted,
        g.same_shutdown,
        inv.live,
        total-append ends s.pcs new,
        total-replicate ends made ready,
        length-append s.pcs new,
        length-replicate made ready,
      );
    }

shrink-Inv : (s : System) (b l : ℕ) → Inv s → Inv (record s { pool = admin_shrink b l s.pool })
unfolding admin_shrink
shrink-Inv s b l inv = elim (Bool-cases (ltb (b * 2) l && ltb s.pool.min_thr_num l)) [
  | inl more ↦ rw more (record {
    valid = ground (arith, inv.valid);
    fifo = inv.fifo;
    busy = inv.busy;
    live = inv.live;
  })
  | inr enough ↦ rw enough inv
]

-- Every step of the system keeps the invariant.
pub Step-Inv : {s t : System} → Inv s → Step s t → Inv t
Step-Inv {s} inv (work i {pc} {pc'} {p} at h) = work-Inv s i pc pc' p inv at h
Step-Inv {s} inv (submit f a {r} {p} h) = submit-Inv s f a r p inv h
Step-Inv {s} inv (grow made missed kill esrch tid queue_size l {p} {add} h split) =
    grow-Inv s p add made missed inv
      (Yields-at (admin_grow-Grown kill esrch tid queue_size l s.pool inv.valid) h) split
Step-Inv {s} inv (shrink b l) = shrink-Inv s b l inv
Step-Inv {s} inv close = record {
  valid = ground (arith, inv.valid);
  fifo = inv.fifo;
  busy = inv.busy;
  live = inl refl;
}

pub record IsFresh (p : Pool) : Type 0 where
  pub valid : IsValid p
  pub empty : p.queue_size ≡ 0
  pub idle : p.busy_thr_num ≡ 0
  pub full : p.live_thr_num ≡ p.min_thr_num

start-Inv :
    (p : Pool) (made missed : ℕ)
    → IsFresh p
    → made + missed ≡ p.min_thr_num
    → Inv (start_of p made missed)
start-Inv p made missed fresh split = record {
  valid = fresh.valid;
  fifo = ground (arith, fresh.empty);
  busy = omega (arith, fresh.idle, total-replicate runs made ready);
  live =
      inr (omega (arith, fresh.full, total-replicate ends made ready, length-replicate made ready));
}

-- From a pool as `threadpool_create` makes it, whichever calls of `pthread_create` fail, every reachable state
-- satisfies the invariant: the tasks submitted are those taken out of the queue followed by those that wait,
-- in the order of submission, so none is lost, repeated or overtaken; `busy_thr_num` counts the workers
-- inside a task; and until the pool is closed `live_thr_num` counts the workers that have not ended and, with
-- them, every call of `pthread_create` that failed.
pub Reach-Inv : {p : Pool} {s : System} → IsFresh p → Reach p s → Inv s
Reach-Inv {p} fresh (start made missed split) = start-Inv p made missed fresh split
Reach-Inv fresh (later r st) = Step-Inv (Reach-Inv fresh r) st
