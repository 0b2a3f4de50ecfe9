-- ===== src/Pool/System/Effect.antt =====
-- What one step of a worker does to the queue and to the counters of practise/thread_pool.c.
use learn_c_linux.Prelude.{
  ℕ, ◌+◌, ◌-◌, ◌≤◌, ◌≡◌, ◌≢◌, ◌⊎◌, refl, true, false, some, [], ◌++◌, arith, Yields-some,
}
use learn_c_linux.Pool.{
  Pool, Pc, ready, waiting, taken, running, exited, take_task, look, wake, threadpool_thread,
}
use learn_c_linux.Pool.Inv.{IsValid}
use learn_c_linux.Pool.Fifo.{contents, take_task-contents}
use learn_c_linux.Pool.System.{fetched}

abbrev pub runs : Pc → ℕ
runs (running _) = 1
runs _ = 0

abbrev pub ends : Pc → ℕ
ends exited = 1
ends _ = 0

pub record Effect (p : Pool) (pc : Pc) (p' : Pool) (pc' : Pc) : Type 0 where
  pub queue : contents p ≡ fetched pc' ++ contents p'
  pub busy : p'.busy_thr_num + runs pc ≡ p.busy_thr_num + runs pc'
  pub live : (p.shutdown ≡ true) ⊎ (p'.live_thr_num + ends pc' ≡ p.live_thr_num + ends pc)
  pub same_shutdown : p'.shutdown ≡ p.shutdown
  pub closed : (p.shutdown ≡ false) ⊎ (fetched pc' ≡ [])
  pub same_min : p'.min_thr_num ≡ p.min_thr_num

-- A step from a place that is neither in a task nor at the end.
abbrev Plain : Pc → Type 0
Plain pc = (runs pc ≡ 0) × (ends pc ≡ 0)

take_task-Effect :
    (p p' : Pool) (pc pc' : Pc)
    → IsValid p
    → p.queue_size ≢ 0
    → p.shutdown ≡ false
    → take_task p ≡ some (p', pc')
    → Plain pc
    → Effect p pc p' pc'
unfolding take_task
take_task-Effect p p' pc pc' v ne live h plain =
    let (out, run, rest) = Yields-some (take_task-contents p v ne) in
    let (t, queue, found) = rest in ground arith

look-Effect :
    (p p' : Pool) (pc pc' : Pc)
    → IsValid p
    → look p ≡ some (p', pc')
    → Plain pc
    → Effect p pc p' pc'
unfolding look
look-Effect p p' pc pc' v h plain = ground (arith, take_task-Effect p p' pc pc')

wake-Effect :
    (p p' : Pool) (pc' : Pc) → IsValid p → wake p ≡ some (p', pc') → Effect p waiting p' pc'
unfolding wake
wake-Effect p p' pc' v h = ground (
  arith,
  look-Effect p p' waiting pc' v,
  look-Effect (record p { wait_exit_thr_num = p.wait_exit_thr_num - 1 }) p' waiting pc',
)

-- Every step of `threadpool_thread`: a task that is taken is the oldest of the queue; `busy_thr_num`
-- follows the workers inside a task, and `live_thr_num` those that have ended, while the pool is open;
-- a closed pool hands out no task.
pub threadpool_thread-Effect :
    (p p' : Pool) (pc pc' : Pc)
    → IsValid p
    → (runs pc ≤ p.busy_thr_num)
    → threadpool_thread p pc ≡ some (p', pc')
    → Effect p pc p' pc'
unfolding threadpool_thread
threadpool_thread-Effect p p' ready pc' v some_busy h = look-Effect p p' ready pc' v h (refl, refl)
threadpool_thread-Effect p p' waiting pc' v some_busy h = wake-Effect p p' pc' v h
threadpool_thread-Effect p p' (taken t) pc' v some_busy h = ground arith
threadpool_thread-Effect p p' (running t) pc' v some_busy h = ground arith
threadpool_thread-Effect p p' exited pc' v some_busy h = ground arith
