-- ===== src/Pool/Closing.antt =====
-- practise/thread_pool.c: whom `threadpool_destroy` waits for, and when it and `threadpool_add_task` free what.
use learn_c_linux.Prelude.{ℕ, ◌≡◌, ◌≢◌, replicate, false, some, List, [], ◌∷◌, ◌++◌, map, arith}
use learn_c_linux.Prelude.Int.{ℤ}
use learn_c_linux.Pool.{
  Task, Pool, Act, shut, join, broadcast, release, lock_acts, taken, take_task, returned, put_task,
  threadpool_add_task,
}
use learn_c_linux.Pool.Inv.{IsValid}

-- What `threadpool_destroy` does before it frees anything, when it waits for these threads.
abbrev pub before_free : Pool → ℕ → List ℕ → List Act
before_free p rounds joined =
    shut ∷ join p.admin_tid ∷ (replicate rounds broadcast ++ map join joined)

-- What it does then.
abbrev pub frees : Pool → List Act
frees p = release p.queue_at ∷ release p.threads_at ∷ (lock_acts ++ (release p.at ∷ []))

-- When the queue is full, the argument of the task that a worker takes out is freed by the next
-- `threadpool_add_task`, whether or not the worker has finished with it.
pub put_task-frees_taken :
    (p p1 p2 : Pool) (t : Task) (f a : ℕ) (r : ℤ)
    → IsValid p
    → p.queue_size ≡ p.queue_max_size
    → p.shutdown ≡ false
    → take_task p ≡ some (p1, taken t)
    → t.arg ≢ 0
    → threadpool_add_task p1 f a ≡ returned r p2
    → p2.freed ≡ t.arg ∷ p.freed
unfolding take_task threadpool_add_task put_task
put_task-frees_taken p p1 p2 t f a r v full still got ne added =
    let back : p.queue_rear ≡ p.queue_front = grind (arith, v.rear_at, v.front_in, full) in
    ground arith
