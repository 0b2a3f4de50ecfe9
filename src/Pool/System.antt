-- ===== src/Pool/System.antt =====
-- practise/thread_pool.c as a system: workers, clients, the admin thread and `threadpool_destroy` take
-- turns in any order, a critical section at a time. A wait on a condition may end at any moment.
pub mod Effect
pub mod Safety
pub mod Closed
pub mod Frees
use learn_c_linux.Prelude.{
  ℕ, ◌+◌, Bool, true, ◌≡◌, some, List, [], ◌∷◌, ◌++◌, get_elem?, set, replicate,
}
use learn_c_linux.Prelude.Int.{ℤ, pos, negsuc}
use learn_c_linux.Pool.{
  Task, task, Alloc, Pool, created, threadpool_create, Pc, ready, taken, threadpool_thread,
  returned, threadpool_add_task,
}
use learn_c_linux.Pool.Admin.{admin_grow, admin_shrink}

-- `pcs` has the workers in the order of their creation, and `failed` counts the calls of `pthread_create` that
-- failed, whose result the code does not look at. `submitted` lists the tasks for which
-- `threadpool_add_task` returned 0, `dequeued` those that a worker has taken out of the queue, both the
-- oldest first.
pub record System : Type 0 where
  pub pool : Pool
  pub pcs : List Pc
  pub failed : ℕ
  pub submitted : List Task
  pub dequeued : List Task

-- The task that a worker has just taken out of the queue.
abbrev pub fetched : Pc → List Task
fetched (taken t) = t ∷ []
fetched _ = []

-- A client's task counts as submitted where the returned value is 0.
abbrev pub accepted : ℤ → Task → List Task
accepted (pos _) t = t ∷ []
accepted (negsuc _) t = []

pub data Step (s : System) : System → Type 0 where
  work :
      (i : ℕ) {pc pc' : Pc} {p : Pool}
      → get_elem? s.pcs i ≡ some pc
      → threadpool_thread s.pool pc ≡ some (p, pc')
      → Step s (record s { pool = p; pcs = set s.pcs i pc'; dequeued = s.dequeued ++ fetched pc' })
  submit :
      (f a : ℕ) {r : ℤ} {p : Pool}
      → threadpool_add_task s.pool f a ≡ returned r p
      → Step s (record s { pool = p; submitted = s.submitted ++ accepted r (task f a) })
  -- Of the `add` calls of `pthread_create` that the code counts as threads, `made` succeed.
  grow :
      (made missed : ℕ) (kill : ℕ → ℕ) (esrch : ℕ) (tid : ℕ → ℕ) (queue_size live : ℕ) {p : Pool}
      {add : ℕ}
      → admin_grow kill esrch tid queue_size live s.pool ≡ some (p, add)
      → made + missed ≡ add
      → Step s
          (record s { pool = p; pcs = s.pcs ++ replicate made ready; failed = s.failed + missed })
  shrink : (busy live : ℕ) → Step s (record s { pool = admin_shrink busy live s.pool })
  close : Step s (record s { pool = record (s.pool) { shutdown = true } })

-- Right after `threadpool_create`, in which `made` of the first calls of `pthread_create` have succeeded and
-- `missed` have not. Where the one for the admin thread has failed, `grow` and `shrink` do not happen.
abbrev pub start_of : Pool → ℕ → ℕ → System
start_of p made missed = record {
  pool = p;
  pcs = replicate made ready;
  failed = missed;
  submitted = [];
  dequeued = [];
}

pub data Reach (p : Pool) : System → Type 0 where
  start : (made missed : ℕ) → made + missed ≡ p.min_thr_num → Reach p (start_of p made missed)
  later : {s t : System} → Reach p s → Step s t → Reach p t

-- Any number of steps, from any state.
pub data Steps (s : System) : System → Type 0 where
  here : Steps s s
  next : {t u : System} → Steps s t → Step t u → Steps s u
