-- ===== src/Pool/Inv.antt =====
-- The representation invariant of the pool, and that every operation keeps it.
use native.Mathlib.Nat.{mod-add-mod, mod-lt}
use learn_c_linux.Prelude.{
  ℕ, zero, suc, ◌+◌, ◌-◌, ◌%◌, ◌≤◌, ◌<◌, ◌≡◌, ◌≢◌, refl, none, some, List, arith, ltb, Bool-cases,
  inl, inr, get_elem?-out, length, set, length-set, replicate, length-replicate, get_elem?-in,
  Yields, yields, Yields-mono, Yields-some,
}
use learn_c_linux.Pool.{
  Alloc, Pool, created, start_threads, threadpool_create, Pc, ready, waiting, taken, running,
  exited, take_task, look, wake, threadpool_thread, returned, outside, put_task,
  threadpool_add_task, fresh_pool, task,
}
use learn_c_linux.Prelude.Int.{ℤ}

pub record IsValid (p : Pool) : Type 0 where
  pub room : p.queue_max_size ≤ length p.task_queue
  pub some_room : 0 < p.queue_max_size
  pub front_in : p.queue_front < p.queue_max_size
  pub size_in : p.queue_size ≤ p.queue_max_size
  pub rear_at : p.queue_rear ≡ (p.queue_front + p.queue_size) % p.queue_max_size
  pub slots : length p.threads ≡ p.max_thr_num
  pub live_min : p.min_thr_num ≤ p.live_thr_num
  pub live_max : p.live_thr_num ≤ p.max_thr_num

-- One step round the ring, from either end.
pub ring_front : (f s m : ℕ) → 0 < s → ((f + 1) % m + (s - 1)) % m ≡ (f + s) % m
ring_front f s m h = let e : f + 1 + (s - 1) ≡ f + s = omega arith in rw (mod-add-mod, e)

pub ring_rear : (f s m : ℕ) → ((f + s) % m + 1) % m ≡ (f + (s + 1)) % m
ring_rear f s m = let e : f + s + 1 ≡ f + (s + 1) = omega arith in rw (mod-add-mod, e)

take_task-IsValid :
    (p p' : Pool) (pc : Pc)
    → IsValid p
    → p.queue_size ≢ 0
    → take_task p ≡ some (p', pc)
    → IsValid p'
unfolding take_task
take_task-IsValid p p' pc v ne h =
    ground (arith, ring_front p.queue_front p.queue_size p.queue_max_size)

look-IsValid : (p p' : Pool) (pc : Pc) → IsValid p → look p ≡ some (p', pc) → IsValid p'
unfolding look
look-IsValid p p' pc v h = ground (arith, take_task-IsValid p p' pc)

wake-IsValid : (p p' : Pool) (pc : Pc) → IsValid p → wake p ≡ some (p', pc) → IsValid p'
unfolding wake
wake-IsValid p p' pc v h = ground (
  arith,
  look-IsValid p p' pc v,
  look-IsValid (record p { wait_exit_thr_num = p.wait_exit_thr_num - 1 }) p' pc,
)

-- No step of `threadpool_thread` breaks the invariant.
pub threadpool_thread-IsValid :
    (p p' : Pool) (pc pc' : Pc) → IsValid p → threadpool_thread p pc ≡ some (p', pc') → IsValid p'
unfolding threadpool_thread
threadpool_thread-IsValid p p' ready pc' v h = look-IsValid p p' pc' v h
threadpool_thread-IsValid p p' waiting pc' v h = wake-IsValid p p' pc' v h
threadpool_thread-IsValid p p' (taken t) pc' v h = ground arith
threadpool_thread-IsValid p p' (running t) pc' v h = ground arith
threadpool_thread-IsValid p p' exited pc' v h = ground arith

take_task-ne-none : (p : Pool) → IsValid p → take_task p ≢ none
unfolding take_task
take_task-ne-none p v =
    let (t, e) = get_elem?-in p.task_queue p.queue_front (omega arith) in ground arith

look-ne-none : (p : Pool) → IsValid p → look p ≢ none
unfolding look
look-ne-none p v = ground (arith, take_task-ne-none p v)

-- A worker never reads outside the queue: each of its steps has a result.
pub threadpool_thread-ne-none : (p : Pool) (pc : Pc) → IsValid p → threadpool_thread p pc ≢ none
unfolding threadpool_thread wake
threadpool_thread-ne-none p ready v = look-ne-none p v
threadpool_thread-ne-none p waiting v = ground (
  arith,
  look-ne-none p v,
  look-ne-none (record p { wait_exit_thr_num = p.wait_exit_thr_num - 1 }),
)
threadpool_thread-ne-none p (taken t) v = ground arith
threadpool_thread-ne-none p (running t) v = ground arith
threadpool_thread-ne-none p exited v = ground arith

pub put_task-IsValid :
    (p p' : Pool) (f a : ℕ) (r : ℤ)
    → IsValid p
    → p.queue_size ≢ p.queue_max_size
    → put_task p f a ≡ returned r p'
    → IsValid p'
unfolding put_task
put_task-IsValid p p' f a r v ne h = ground (
  arith,
  ring_rear p.queue_front p.queue_size p.queue_max_size,
  length-set p.task_queue p.queue_rear (task f a),
)

-- `threadpool_add_task` keeps the invariant, whatever it returns.
pub threadpool_add_task-IsValid :
    (p p' : Pool) (f a : ℕ) (r : ℤ)
    → IsValid p
    → threadpool_add_task p f a ≡ returned r p'
    → IsValid p'
unfolding threadpool_add_task
threadpool_add_task-IsValid p p' f a r v h = ground (arith, put_task-IsValid p p' f a r v)

-- Nor does `threadpool_add_task` touch anything outside the queue.
pub threadpool_add_task-ne-outside :
    (p : Pool) (f a : ℕ) → IsValid p → threadpool_add_task p f a ≢ outside
unfolding threadpool_add_task put_task
threadpool_add_task-ne-outside p f a v =
    let in_range : p.queue_rear < p.queue_max_size =
      omega (arith, mod-lt (p.queue_front + p.queue_size) v.some_room) in
    let (t, e) = get_elem?-in p.task_queue p.queue_rear (omega arith) in ground arith

-- Fewer slots than workers: the loop leaves the array.
pub start_threads-outside :
    (tid : ℕ → ℕ) (n i : ℕ) (ts : List ℕ)
    → i ≤ length ts
    → length ts < i + n
    → start_threads tid n i ts ≡ none
unfolding start_threads
start_threads-outside tid zero i ts le h = absurd (omega arith)
start_threads-outside tid (suc n) i ts le h = elim (Bool-cases (ltb i (length ts))) [
  | inl inside ↦
      let (t, e) = get_elem?-in ts i (ground (arith, inside)) in
      let same = length-set ts i (tid i) in
      rw (e, start_threads)
        (start_threads-outside tid n (i + 1) (set ts i (tid i)) (ground (arith, inside, same))
          (omega (arith, same)))
  | inr out ↦ rw (get_elem?-out ts i (ground (arith, out)), start_threads) refl
]

pub start_threads-length :
    (tid : ℕ → ℕ) (n i : ℕ) (ts : List ℕ)
    → i + n ≤ length ts
    → Yields (λ out. length out ≡ length ts) (start_threads tid n i ts)
unfolding start_threads
start_threads-length tid zero i ts h = yields refl
start_threads-length tid (suc n) i ts h =
    let (t, e) = get_elem?-in ts i (omega arith) in
    let same = length-set ts i (tid i) in
    rw (e, start_threads)
      (Yields-mono (start_threads-length tid n (i + 1) (set ts i (tid i)) (omega (arith, same)))
        λ out len. omega (arith, same))

-- When the allocations and the locks succeed, a pool with room for a task and at most `max` first
-- threads is created, it is valid, and its queue is empty.
pub threadpool_create-IsValid :
    (a : Alloc) (min max size : ℕ)
    → a.pool_at ≢ 0
    → a.threads_at ≢ 0
    → a.queue_at ≢ 0
    → 4 ≤ a.inits
    → length a.tasks ≡ size
    → 0 < size
    → min ≤ max
    → (p : Pool) × (threadpool_create a min max size ≡ created p) × IsValid p × (p.queue_size ≡ 0)
unfolding threadpool_create
threadpool_create-IsValid a min max size pool threads queue locks full some_room le =
    let zeros = length-replicate {0} {A = ℕ} max 0 in
    let (ts, run, len) =
      Yields-some (start_threads-length a.tid min 0 (replicate max 0) (omega (arith, zeros))) in
    (fresh_pool a min max size ts, ground arith, ground (arith, zeros), refl)
