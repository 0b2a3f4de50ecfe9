-- ===== src/Pool.antt =====
-- practise/thread_pool.h and practise/thread_pool.c: the pool, its task queue, its workers and its
-- clients. A critical section of `lock` is one function, from the place where the lock is taken to
-- the place where it is given up (`pthread_mutex_unlock`, or `pthread_cond_wait`, which blocks).
pub mod Admin
pub mod Inv
pub mod Fifo
pub mod System
pub mod Lifetime
pub mod Closing
mod Tests
use learn_c_linux.Prelude.{
  ℕ, zero, suc, ◌+◌, ◌-◌, ◌%◌, Bool, true, false, not, ◌&&◌, Option, none, some, List, [], ◌∷◌,
  ◌++◌, ◌==◌, ltb, if◌then◌else◌, get_elem?, set, replicate,
}
use learn_c_linux.Prelude.Int.{ℤ, pos, negsuc}

-- `threadpool_task_t`. A function and its argument are addresses; 0 is `NULL`.
pub record Task : Type 0 where
  pub function : ℕ
  pub arg : ℕ

abbrev pub task : ℕ → ℕ → Task
task f a = record { function = f; arg = a }

-- `threadpool_t`. The arrays are lists, `threads_at` and `queue_at` are their addresses, and `at` is
-- the address of the struct. `freed` is no field of the struct: it lists the pointers that
-- `threadpool_add_task` has passed to `free`, the last first.
pub record Pool : Type 0 where
  pub at : ℕ
  pub threads_at : ℕ
  pub queue_at : ℕ
  pub threads : List ℕ
  pub admin_tid : ℕ
  pub task_queue : List Task
  pub min_thr_num : ℕ
  pub max_thr_num : ℕ
  pub live_thr_num : ℕ
  pub busy_thr_num : ℕ
  pub wait_exit_thr_num : ℕ
  pub queue_front : ℕ
  pub queue_rear : ℕ
  pub queue_size : ℕ
  pub queue_max_size : ℕ
  pub shutdown : Bool
  pub freed : List ℕ

-- What the C library answers to `threadpool_create`. `garbage` is what the new struct holds in
-- `task_queue` before that field is written, `tasks` what the new queue holds: `malloc` sets neither. `inits`
-- is how many of the four calls that initialise the locks succeed before one fails, 4 if none does.
pub record Alloc : Type 0 where
  pub pool_at : ℕ
  pub threads_at : ℕ
  pub queue_at : ℕ
  pub garbage : ℕ
  pub tasks : List Task
  pub inits : ℕ
  pub tid : ℕ → ℕ
  pub admin : ℕ

-- The mutexes and the condition variables of the struct.
pub data Lock : Type 0 where
  lock : Lock
  thread_counter : Lock
  queue_not_empty : Lock
  queue_not_full : Lock

-- Their places in the order in which `threadpool_create` initialises them.
abbrev pub place : Lock → ℕ
place lock = 0
place thread_counter = 1
place queue_not_empty = 2
place queue_not_full = 3

-- What `threadpool_destroy` and `threadpool_free` do, one act after the other.
pub data Act : Type 0 where
  shut : Act  -- `pool->shutdown = true`
  join : ℕ → Act
  broadcast : Act  -- on `queue_not_empty`
  release : ℕ → Act  -- `free`
  acquire : Lock → Act  -- `pthread_mutex_lock`
  destroy : Lock → Act  -- `pthread_mutex_destroy` or `pthread_cond_destroy`

-- When the first `inits` locks are initialised: what is done to any other is undefined.
abbrev pub is_defined : ℕ → Act → Bool
is_defined inits (acquire l) = ltb (place l) inits
is_defined inits (destroy l) = ltb (place l) inits
is_defined inits _ = true

-- The acts up to the first one that is undefined. With it goes the value returned, which is `none` where
-- there is such an act.
unfoldable pub perform : ℕ → List Act → Option ℤ × List Act
perform inits [] = (some (pos 0), [])
perform inits (x ∷ xs) =
    let rest = perform inits xs in if is_defined inits x then (rest.0, x ∷ rest.1) else (none, [])

-- `if (ptr) free(ptr)`
abbrev pub free_unless_null : ℕ → List Act
free_unless_null p = if p == 0 then [] else release p ∷ []

-- What `threadpool_free` does to the locks.
abbrev pub lock_acts : List Act
lock_acts =
    acquire lock
    ∷ destroy lock
    ∷ acquire thread_counter
    ∷ destroy thread_counter
    ∷ destroy queue_not_empty
    ∷ destroy queue_not_full
    ∷ []

-- `threadpool_free` on a struct at `at` whose two array fields hold `queue` and `threads`, and whose first
-- `inits` locks are initialised. Nobody else holds them.
unfoldable pub threadpool_free : ℕ → ℕ → ℕ → ℕ → Option ℤ × List Act
unfolding perform
threadpool_free inits at queue threads =
    if at == 0
    then (some (negsuc 0), [])
    else perform inits (
        free_unless_null queue
        ++ ((if threads == 0 then [] else release threads ∷ lock_acts) ++ (release at ∷ [])))

-- `failed` is `return NULL` after these acts, `undefined` a use of a lock that is not initialised, after
-- these acts; `fault` is a write outside the array `threads`.
pub data Created : Type 0 where
  created : Pool → Created
  failed : List Act → Created
  undefined : List Act → Created
  fault : Created

-- What follows the `do` block.
abbrev pub give_up : Option ℤ × List Act → Created
give_up (none, acts) = undefined acts
give_up (some _, acts) = failed acts

-- The loop that starts `n` workers, from slot `i` on.
pub start_threads : (ℕ → ℕ) → ℕ → ℕ → List ℕ → Option (List ℕ)
start_threads tid zero i threads = some threads
start_threads tid (suc n) i threads = elim (get_elem? threads i) [
  | none ↦ none
  | some _ ↦ start_threads tid n (i + 1) (set threads i (tid i))
]

-- The struct as `threadpool_create` fills it.
abbrev pub fresh_pool : Alloc → ℕ → ℕ → ℕ → List ℕ → Pool
fresh_pool a min max size threads = record {
  at = a.pool_at;
  threads_at = a.threads_at;
  queue_at = a.queue_at;
  threads = threads;
  admin_tid = a.admin;
  task_queue = a.tasks;
  min_thr_num = min;
  max_thr_num = max;
  live_thr_num = min;
  busy_thr_num = 0;
  wait_exit_thr_num = 0;
  queue_front = 0;
  queue_rear = 0;
  queue_size = 0;
  queue_max_size = size;
  shutdown = false;
  freed = [];
}

unfoldable pub threadpool_create : Alloc → ℕ → ℕ → ℕ → Created
unfolding threadpool_free start_threads
threadpool_create a min max size =
    if a.pool_at == 0
    then give_up (threadpool_free 0 0 0 0)
    else if a.threads_at == 0
    then give_up (threadpool_free 0 a.pool_at a.garbage 0)
    else if a.queue_at == 0
    then give_up (threadpool_free 0 a.pool_at 0 a.threads_at)
    else if ltb a.inits 4
    then give_up (threadpool_free a.inits a.pool_at a.queue_at a.threads_at)
    else elim (start_threads a.tid min 0 (replicate max 0)) [
      | none ↦ fault
      | some threads ↦ created (fresh_pool a min max size threads)
    ]

-- Where a worker stands in `threadpool_thread`.
pub data Pc : Type 0 where
  ready : Pc  -- at the head of the loop
  waiting : Pc  -- in `pthread_cond_wait` on `queue_not_empty`
  taken : Task → Pc  -- has a task, before `busy_thr_num++`
  running : Task → Pc  -- in the task's function, up to `busy_thr_num--`
  exited : Pc

-- The task at the front leaves the queue; `none` is a read outside the array.
unfoldable pub take_task : Pool → Option (Pool × Pc)
take_task p = elim (get_elem? p.task_queue p.queue_front) [
  | none ↦ none
  | some t ↦ some (
    record p {
      queue_front = (p.queue_front + 1) % p.queue_max_size;
      queue_size = p.queue_size - 1;
    },
    taken t,
  )
]

-- The test of the inner `while`, and what follows that loop.
unfoldable pub look : Pool → Option (Pool × Pc)
look p =
    if (p.queue_size == 0) && not p.shutdown
    then some (p, waiting)
    else (if p.shutdown then some (p, exited) else take_task p)

-- From the return of `pthread_cond_wait`: the thread may have been asked to end itself.
unfoldable pub wake : Pool → Option (Pool × Pc)
wake p =
    if ltb 0 p.wait_exit_thr_num
    then (let p' = record p { wait_exit_thr_num = p.wait_exit_thr_num - 1 } in
        if ltb p.min_thr_num p.live_thr_num
        then some (record p' { live_thr_num = p.live_thr_num - 1 }, exited)
        else look p')
    else look p

-- `threadpool_thread`, from one of its places to the next.
unfoldable pub threadpool_thread : Pool → Pc → Option (Pool × Pc)
threadpool_thread p ready = look p
threadpool_thread p waiting = wake p
threadpool_thread p (taken t) = some (record p { busy_thr_num = p.busy_thr_num + 1 }, running t)
threadpool_thread p (running t) = some (record p { busy_thr_num = p.busy_thr_num - 1 }, ready)
threadpool_thread p exited = some (p, exited)

-- `blocked` is `pthread_cond_wait` on `queue_not_full`; `outside` an access outside the queue.
pub data Added : Type 0 where
  blocked : Added
  returned : ℤ → Pool → Added
  outside : Added

-- The slot at the rear is overwritten, and an argument that it still holds is freed first.
unfoldable pub put_task : Pool → ℕ → ℕ → Added
put_task p f a = elim (get_elem? p.task_queue p.queue_rear) [
  | none ↦ outside
  | some old ↦ returned (pos 0) (record p {
    task_queue = set p.task_queue p.queue_rear (task f a);
    queue_rear = (p.queue_rear + 1) % p.queue_max_size;
    queue_size = p.queue_size + 1;
    freed = if old.arg == 0 then p.freed else old.arg ∷ p.freed;
  })
]

unfoldable pub threadpool_add_task : Pool → ℕ → ℕ → Added
threadpool_add_task p f a =
    if (p.queue_size == p.queue_max_size) && not p.shutdown
    then blocked
    else if p.shutdown
    then returned (negsuc 0) p
    else put_task p f a
