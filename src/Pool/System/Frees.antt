-- ===== src/Pool/System/Frees.antt =====
-- practise/thread_pool.c: which pointers `threadpool_add_task` has passed to `free`.
use native.Mathlib.Nat.{mod-lt, mod-eq_of_lt, mod-add-mod, mod-eq-sub-mod}
use learn_c_linux.Prelude.{
  ℕ, zero, suc, ◌+◌, ◌-◌, ◌%◌, ◌≤◌, ◌<◌, ◌≡◌, ◌⊎◌, refl, ap, sym, subst, ◌∙◌, ◌==◌, inl, inr,
  if◌then◌else◌, some, List, [], ◌∷◌, ◌++◌, arith, length, length-append, take, take-append, set,
  get_elem?, get_or, get_elem?-get_or, append_assoc, append-nil, Yields-at,
}
use learn_c_linux.Prelude.Int.{ℤ, pos, negsuc}
use learn_c_linux.Pool.{
  Task, task, Pool, Pc, ready, waiting, taken, running, exited, take_task, look, wake,
  threadpool_thread, returned, threadpool_add_task, put_task,
}
use learn_c_linux.Pool.Inv.{IsValid}
use learn_c_linux.Pool.Admin.{admin_shrink}
use learn_c_linux.Pool.Admin.Grow.{admin_grow-Grown}
use learn_c_linux.Pool.Fifo.{ring, length-ring, ring-set}
use learn_c_linux.Pool.System.{
  System, accepted, Step, work, submit, grow, shrink, close, Reach, start, later,
}
use learn_c_linux.Pool.System.Safety.{IsFresh, Inv, Reach-Inv}

-- All the slots of the queue, from the one that is written next on.
abbrev pub slots : Pool → List Task
slots p = ring p.task_queue p.queue_max_size p.queue_rear p.queue_max_size

-- The pointers freed, the last first, once the arguments of these tasks have been freed as well, the first
-- of them first.
abbrev pub freeing : List ℕ → List Task → List ℕ
freeing freed [] = freed
freeing freed (t ∷ ts) = freeing (if t.arg == 0 then freed else t.arg ∷ freed) ts

pub freeing-append :
    (freed : List ℕ) (ts us : List Task) → freeing freed (ts ++ us) ≡ freeing (freeing freed ts) us
freeing-append freed [] us = refl
freeing-append freed (t ∷ ts) us =
    freeing-append (if t.arg == 0 then freed else t.arg ∷ freed) ts us

-- A task that is added frees the argument in the slot that it takes.
record Moved (p : Pool) (t : Task) (r : ℤ) (p' : Pool) : Type 0 where
  old : Task
  turned : slots p ++ (t ∷ []) ≡ old ∷ slots p'
  freed : p'.freed ≡ freeing (p.freed) (old ∷ [])
  same_max : p'.queue_max_size ≡ p.queue_max_size
  result : r ≡ pos 0

ring-turn :
    (q : List Task) (m r : ℕ) (t : Task)
    → m ≤ length q
    → r < m
    → ring q m r m ++ (t ∷ []) ≡ get_or q r (task 0 0) ∷ ring (set q r t) m ((r + 1) % m) m
ring-turn q zero r t room lt = absurd (omega (arith, lt))
ring-turn q (suc n) r t room lt =
    let m = suc n in
    let once : (r + m) % m ≡ (r + m - m) % m = mod-eq-sub-mod (omega arith) in
    let back : r + m - m ≡ r = omega arith in
    let further : r + 1 + n ≡ r + m = omega arith in
    let round : r ≡ ((r + 1) % m + n) % m =
      sym (mod-add-mod (r + 1) m n ∙ rw (further, once, back) (mod-eq_of_lt lt)) in
    ap (λ ts. get_or q r (task 0 0) ∷ ts)
      (sym (ring-set q m t n ((r + 1) % m) r room (mod-lt _ (omega arith)) (omega arith) round))

put_task-fields :
    (p p' : Pool) (f a : ℕ) (r : ℤ) (old : Task)
    → get_elem? p.task_queue p.queue_rear ≡ some old
    → put_task p f a ≡ returned r p'
    → (p'.task_queue ≡ set p.task_queue p.queue_rear (task f a))
      × (p'.queue_rear ≡ (p.queue_rear + 1) % p.queue_max_size)
      × (p'.queue_max_size ≡ p.queue_max_size)
      × (p'.freed ≡ (if old.arg == 0 then p.freed else old.arg ∷ p.freed))
      × (r ≡ pos 0)
unfolding put_task
put_task-fields p p' f a r old at h = ground arith

put_task-Moved :
    (p p' : Pool) (f a : ℕ) (r : ℤ)
    → IsValid p
    → put_task p f a ≡ returned r p'
    → Moved p (task f a) r p'
put_task-Moved p p' f a r v h =
    let inside : p.queue_rear < p.queue_max_size =
      subst (λ k. k < p.queue_max_size) (sym v.rear_at) (mod-lt _ v.some_room) in
    let at =
      get_elem?-get_or p.task_queue p.queue_rear (task 0 0) (omega (arith, inside, v.room)) in
    let turned = ring-turn p.task_queue p.queue_max_size p.queue_rear (task f a) v.room inside in
    let (queue, rear, max, freed, done) =
      put_task-fields p p' f a r (get_or p.task_queue p.queue_rear (task 0 0)) at h in
    record {
      old = get_or p.task_queue p.queue_rear (task 0 0);
      turned = turned ∙ rw (queue, rear, max) refl;
      freed = freed;
      same_max = max;
      result = done;
    }

-- A step that adds no task.
record Still (p p' : Pool) : Type 0 where
  queue : p'.task_queue ≡ p.task_queue
  max : p'.queue_max_size ≡ p.queue_max_size
  rear : p'.queue_rear ≡ p.queue_rear
  freed : p'.freed ≡ p.freed

look-Still : (p p' : Pool) (pc : Pc) → look p ≡ some (p', pc) → Still p p'
unfolding look take_task
look-Still p p' pc h = ground arith

threadpool_thread-Still :
    (p p' : Pool) (pc pc' : Pc) → threadpool_thread p pc ≡ some (p', pc') → Still p p'
unfolding threadpool_thread wake
threadpool_thread-Still p p' ready pc' h = look-Still p p' pc' h
threadpool_thread-Still p p' waiting pc' h = ground (
  arith,
  look-Still p p' pc',
  look-Still (record p { wait_exit_thr_num = p.wait_exit_thr_num - 1 }) p' pc',
)
threadpool_thread-Still p p' (taken t) pc' h = ground arith
threadpool_thread-Still p p' (running t) pc' h = ground arith
threadpool_thread-Still p p' exited pc' h = ground arith

admin_shrink-Still : (p : Pool) (b l : ℕ) → Still p (admin_shrink b l p)
unfolding admin_shrink
admin_shrink-Still p b l = ground arith

Still-slots : (p p' : Pool) → Still p p' → slots p' ≡ slots p
Still-slots p p' e = rw (e.queue, e.max, e.rear) refl

-- What has been in the slots is gone in the order in which it came.
record Gone (p : Pool) (s : System) : Type 0 where
  gone : List Task
  history : slots p ++ s.submitted ≡ gone ++ slots s.pool
  freed : s.pool.freed ≡ freeing p.freed gone
  same_max : s.pool.queue_max_size ≡ p.queue_max_size

Still-Gone :
    (p : Pool) (s t : System)
    → Gone p s
    → Still s.pool t.pool
    → t.submitted ≡ s.submitted
    → Gone p t
Still-Gone p s t g e same = record {
  gone = g.gone;
  history = rw (same, Still-slots s.pool t.pool e) g.history;
  freed = e.freed ∙ g.freed;
  same_max = e.max ∙ g.same_max;
}

Moved-Gone :
    (p : Pool) (s : System) (u : Task) (r : ℤ) (p' : Pool)
    → Gone p s
    → Moved s.pool u r p'
    → Gone p (record s { pool = p'; submitted = s.submitted ++ accepted r u })
Moved-Gone p s u r p' g m = record {
  gone = g.gone ++ (m.old ∷ []);
  history = rw (m.result) (
      sym (append_assoc (slots p) s.submitted (u ∷ []))
      ∙ (ap (λ ts. ts ++ (u ∷ [])) g.history
          ∙ (append_assoc g.gone (slots s.pool) (u ∷ [])
              ∙ (ap (λ ts. g.gone ++ ts) m.turned
                  ∙ sym (append_assoc g.gone (m.old ∷ []) (slots p'))))));
  freed = m.freed ∙ rw (g.freed, freeing-append p.freed g.gone (m.old ∷ [])) refl;
  same_max = m.same_max ∙ g.same_max;
}

add_task-cases :
    (p p' : Pool) (f a : ℕ) (r : ℤ)
    → threadpool_add_task p f a ≡ returned r p'
    → (put_task p f a ≡ returned r p') ⊎ ((r ≡ negsuc 0) × (p' ≡ p))
unfolding threadpool_add_task
add_task-cases p p' f a r h = ground arith

-- A call that puts the task in, or one that is refused because the pool is closed.
submit-Gone :
    (p : Pool) (s : System) (f a : ℕ) (r : ℤ) (p' : Pool)
    → IsValid s.pool
    → Gone p s
    → threadpool_add_task s.pool f a ≡ returned r p'
    → Gone p (record s { pool = p'; submitted = s.submitted ++ accepted r (task f a) })
submit-Gone p s f a r p' v g h = elim (add_task-cases s.pool p' f a r h) [
  | inl put ↦ Moved-Gone p s (task f a) r p' g (put_task-Moved s.pool p' f a r v put)
  | inr (bad, same) ↦
      Still-Gone p s _ g (rw same (record { queue = refl; max = refl; rear = refl; freed = refl }))
        (rw bad (append-nil s.submitted))
]

Step-Gone : (p : Pool) (s t : System) → Inv s → Gone p s → Step s t → Gone p t
Step-Gone p0 s _ inv g (work i {pc} {pc'} {p} at h) =
    Still-Gone p0 s _ g (threadpool_thread-Still s.pool p pc pc' h) refl
Step-Gone p0 s _ inv g (submit f a {r} {p} h) = submit-Gone p0 s f a r p inv.valid g h
Step-Gone p0 s _ inv g (grow made missed kill esrch tid queue_size l {p} {add} h split) =
    let e = Yields-at (admin_grow-Grown kill esrch tid queue_size l s.pool inv.valid) h in
    let rear : p.queue_rear ≡ s.pool.queue_rear =
      e.valid.rear_at ∙ rw (e.same_front, e.same_size, e.same_max) (sym inv.valid.rear_at) in
    Still-Gone p0 s _ g
      (record { queue = e.same_queue; max = e.same_max; rear = rear; freed = e.same_freed }) refl
Step-Gone p0 s _ inv g (shrink b l) = Still-Gone p0 s _ g (admin_shrink-Still s.pool b l) refl
Step-Gone p0 s _ inv g close =
    Still-Gone p0 s _ g (record { queue = refl; max = refl; rear = refl; freed = refl }) refl

Reach-Gone : (p : Pool) (s : System) → IsFresh p → Reach p s → Gone p s
Reach-Gone p _ fresh (start made missed split) = record {
  gone = [];
  history = append-nil (slots p);
  freed = refl;
  same_max = refl;
}
Reach-Gone p _ fresh (later {s} {t} r st) =
    Step-Gone p s t (Reach-Inv fresh r) (Reach-Gone p s fresh r) st

-- In every state that can be reached from a fresh pool, `threadpool_add_task` has freed, in this order and
-- nothing else, the arguments that are not `NULL` of the first tasks of this list, as many as have been
-- submitted: what the queue's slots held at the start, which nobody has set, and then the tasks in the order of their submission.
pub Reach-freed :
    {p : Pool} {s : System}
    → IsFresh p
    → Reach p s
    → s.pool.freed ≡ freeing p.freed (take (length s.submitted) (slots p ++ s.submitted))
Reach-freed {p} {s} fresh r =
    let g = Reach-Gone p s fresh r in
    let as_many : length s.submitted ≡ length g.gone = omega (
      arith,
      ap (λ ts. length ts) g.history,
      length-append (slots p) s.submitted,
      length-append g.gone (slots s.pool),
      g.same_max,
      length-ring p.task_queue p.queue_max_size p.queue_rear p.queue_max_size,
      length-ring s.pool.task_queue s.pool.queue_max_size s.pool.queue_rear s.pool.queue_max_size,
    ) in
    rw (as_many, g.history, take-append g.gone (slots s.pool)) g.freed
