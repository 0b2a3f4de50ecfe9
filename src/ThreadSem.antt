-- ===== src/ThreadSem.antt =====
-- thread/thread_sem.c: a producer and a consumer on a counting semaphore. The readings that are printed
-- are left out.
pub mod Stuck
mod Tests
use learn_c_linux.Prelude.{ℕ, zero, suc, ◌+◌, Bool, true, false, ◌≡◌, Option, none, some}

pub data Pc : Type 0 where
  testing : Pc
  working : Pc
  ended : Pc

pub record Threads : Type 0 where
  pub running : Bool
  pub sem : ℕ
  pub producter : Pc
  pub conmuser : Pc

abbrev pub test : Bool → Pc
test true = working
test false = ended

-- One step of `producter_handle`.
unfoldable pub producter_handle : Threads → Pc → Option Threads
producter_handle t testing = some (record t { producter = test t.running })
producter_handle t working = some (record t { sem = t.sem + 1; producter = testing })
producter_handle t ended = none

-- `sem_wait`, which waits while the semaphore is 0.
unfoldable pub sem_wait : Threads → ℕ → Option Threads
sem_wait t zero = none
sem_wait t (suc n) = some (record t { sem = n; conmuser = testing })

-- One step of `conmuser_handle`.
unfoldable pub conmuser_handle : Threads → Pc → Option Threads
unfolding sem_wait
conmuser_handle t testing = some (record t { conmuser = test t.running })
conmuser_handle t working = sem_wait t t.sem
conmuser_handle t ended = none

-- `stop` is `running = 0` in `main`.
pub data Step (t : Threads) : Threads → Type 0 where
  produce : {u : Threads} → producter_handle t t.producter ≡ some u → Step t u
  consume : {u : Threads} → conmuser_handle t t.conmuser ≡ some u → Step t u
  stop : Step t (record t { running = false })

abbrev pub initial : ℕ → Threads
initial n = record { running = true; sem = n; producter = testing; conmuser = testing }

pub data Reach (t : Threads) : Threads → Type 0 where
  start : Reach t t
  later : {u v : Threads} → Reach t u → Step u v → Reach t v
