-- ===== src/Pool/Tests.antt =====
-- Runs of practise/thread_pool.c on a small pool, and the theorems at concrete inputs.
use learn_c_linux.Prelude.{◌+◌, ◌≡◌, ◌⊎◌, ◌≢◌, refl, true, none, some, [], ◌∷◌, ◌++◌, take, arith}
use learn_c_linux.Prelude.Int.{pos}
use learn_c_linux.Pool.{
  task, Alloc, Pool, release, acquire, destroy, lock, created, undefined, fresh_pool,
  threadpool_create, ready, taken, running, take_task, look, threadpool_thread, blocked, returned,
  outside, put_task, threadpool_add_task,
}
use learn_c_linux.Pool.Inv.{IsValid, threadpool_thread-ne-none, threadpool_add_task-ne-outside}
use learn_c_linux.Pool.System.{System, work, submit, close, Reach, start, later, here, next}
use learn_c_linux.Pool.System.Effect.{Effect, threadpool_thread-Effect}
use learn_c_linux.Pool.System.Frees.{freeing, Reach-freed}
use learn_c_linux.Pool.System.Safety.{Inv, IsFresh, Reach-Inv}
use learn_c_linux.Pool.System.Closed.{Frozen, Steps-closed}
use learn_c_linux.Pool.Lifetime.{
  NoStruct, NoThreads, Undefined, Allocated, Filled, threadpool_create-outcome,
}

-- Blocks at 100, 200 and 300; the new struct holds 77 in `task_queue`, the new queue no pointers.
abbrev alloc : Alloc
alloc = record {
  pool_at = 100;
  threads_at = 200;
  queue_at = 300;
  garbage = 77;
  tasks = task 0 0 ∷ task 0 0 ∷ [];
  inits = 4;
  tid = λ i. i + 1;
  admin = 9;
}

abbrev small : Pool
small = fresh_pool alloc 1 3 2 (1 ∷ 0 ∷ 0 ∷ [])

-- With one task in the queue, and with two.
abbrev one : Pool
one = record small { task_queue = task 5 40 ∷ task 0 0 ∷ []; queue_rear = 1; queue_size = 1 }

abbrev full : Pool
full = record small { task_queue = task 5 40 ∷ task 6 41 ∷ []; queue_rear = 0; queue_size = 2 }

abbrev full_taken : Pool
full_taken = record full { queue_front = 1; queue_size = 1 }

create_runs : threadpool_create alloc 1 3 2 ≡ created small
unfolding threadpool_create
create_runs = refl

add_runs : threadpool_add_task small 5 40 ≡ returned (pos 0) one
unfolding threadpool_add_task put_task
add_runs = refl

add_full_blocks : threadpool_add_task full 7 42 ≡ blocked
unfolding threadpool_add_task
add_full_blocks = refl

take_runs : threadpool_thread full ready ≡ some (full_taken, taken (task 5 40))
unfolding threadpool_thread look take_task
take_runs = refl

small-IsValid : IsValid small
small-IsValid = omega arith

one-IsValid : IsValid one
one-IsValid = omega arith

full-IsValid : IsValid full
full-IsValid = omega arith

threadpool_thread-ne-none_example : threadpool_thread full ready ≢ none
threadpool_thread-ne-none_example = threadpool_thread-ne-none full ready full-IsValid

threadpool_add_task-ne-outside_example : threadpool_add_task one 7 42 ≢ outside
threadpool_add_task-ne-outside_example = threadpool_add_task-ne-outside one 7 42 one-IsValid

threadpool_thread-Effect_example : Effect full ready full_taken (taken (task 5 40))
threadpool_thread-Effect_example =
    threadpool_thread-Effect full full_taken ready (taken (task 5 40)) full-IsValid (omega arith)
      take_runs

small-IsFresh : IsFresh small
small-IsFresh = record { valid = small-IsValid; empty = refl; idle = refl; full = refl }

-- A client submits a task, and the worker takes it.
abbrev busy_system : System
busy_system = record {
  pool = record one { queue_front = 1; queue_size = 0 };
  pcs = taken (task 5 40) ∷ [];
  failed = 0;
  submitted = task 5 40 ∷ [];
  dequeued = task 5 40 ∷ [];
}

busy_system-Reach : Reach small busy_system
unfolding threadpool_add_task put_task threadpool_thread look take_task
busy_system-Reach =
    later (later (start 1 0 refl) (submit 5 40 refl)) (work 0 {pc = ready} refl refl)

Reach-Inv_example : Inv busy_system
Reach-Inv_example = Reach-Inv small-IsFresh busy_system-Reach

abbrev closed_system : System
closed_system = record busy_system { pool = record (busy_system.pool) { shutdown = true } }

closed_system-Inv : Inv closed_system
closed_system-Inv = Reach-Inv small-IsFresh (later busy_system-Reach close)

-- A client is refused, and the worker goes on with the task that it has.
abbrev going_on : System
going_on = record closed_system {
  pool = record (closed_system.pool) { busy_thr_num = 1 };
  pcs = running (task 5 40) ∷ [];
  submitted = (task 5 40 ∷ []) ++ [];
  dequeued = (task 5 40 ∷ []) ++ [];
}

Steps-closed_example : Frozen closed_system going_on
unfolding threadpool_add_task threadpool_thread
Steps-closed_example =
    Steps-closed closed_system-Inv refl
      (next (next here (submit 7 42 refl)) (work 0 {pc = taken (task 5 40)} refl refl))

-- The second mutex cannot be initialised.
abbrev no_locks : Alloc
no_locks = record alloc { inits = 1 }

no_locks_runs :
    threadpool_create no_locks 1 3 2
    ≡ undefined (release 300 ∷ release 200 ∷ acquire lock ∷ destroy lock ∷ [])
unfolding threadpool_create
no_locks_runs = refl

threadpool_create-outcome_example :
    NoStruct no_locks 1 3 2
    ⊎ (NoThreads no_locks 1 3 2
        ⊎ (Undefined no_locks 1 3 2 ⊎ (Allocated no_locks 1 3 2 × Filled no_locks 1 3 2)))
threadpool_create-outcome_example = threadpool_create-outcome no_locks 1 3 2

-- Two tasks fill the queue, a worker takes the first, and a third one comes: the worker is still in the task
-- whose argument, at 40, is freed.
abbrev refilled : System
refilled = record {
  pool = record full {
    task_queue = task 7 42 ∷ task 6 41 ∷ [];
    queue_front = 1;
    queue_rear = 1;
    freed = 40 ∷ [];
  };
  pcs = taken (task 5 40) ∷ [];
  failed = 0;
  submitted = task 5 40 ∷ task 6 41 ∷ task 7 42 ∷ [];
  dequeued = task 5 40 ∷ [];
}

refilled-Reach : Reach small refilled
unfolding threadpool_add_task put_task threadpool_thread look take_task
refilled-Reach =
    later
      (later (later (later (start 1 0 refl) (submit 5 40 refl)) (submit 6 41 refl))
        (work 0 {pc = ready} refl refl))
      (submit 7 42 refl)

Reach-freed_example :
    40 ∷ [] ≡ freeing [] (take 3 (task 0 0 ∷ task 0 0 ∷ task 5 40 ∷ task 6 41 ∷ task 7 42 ∷ []))
Reach-freed_example = Reach-freed small-IsFresh refilled-Reach
