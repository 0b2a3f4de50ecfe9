-- ===== src/Pool/Admin.antt =====
-- practise/thread_pool.c: `admin_thread`, `is_thread_alive` and `threadpool_destroy`.
pub mod Grow
use learn_c_linux.Prelude.{
  ℕ, zero, suc, ◌+◌, ◌*◌, Bool, true, false, ◌&&◌, ◌||◌, not, Option, none, some, List, [], ◌∷◌,
  ◌==◌, ltb, leb, ◌++◌, if◌then◌else◌, get_elem?, set, map, replicate,
}
use learn_c_linux.Prelude.Int.{ℤ, pos, negsuc}
use learn_c_linux.Pool.{Pool, Act, shut, join, broadcast, threadpool_free}

abbrev pub default_thread_num : ℕ
default_thread_num = 4

abbrev pub min_wait_task_num : ℕ
min_wait_task_num = 4

-- `kill t` is the result of `pthread_kill(t, 0)`, `esrch` the value of `ESRCH`, and `tid i` what the
-- `pthread_create` of round `i` leaves in the slot. Its result is not read by the code.
module _ (kill : ℕ → ℕ) (esrch : ℕ) (tid : ℕ → ℕ) where
  unfoldable pub is_thread_alive : ℕ → Bool
  is_thread_alive t = if kill t == esrch then false else true

  -- The body of the loop at slot `i`, which holds `t`; `add` threads have been started.
  unfoldable pub grow_slot : ℕ → ℕ → ℕ → Pool → Pool × ℕ
  unfolding is_thread_alive
  grow_slot i t add p =
      if (t == 0) || not (is_thread_alive t)
      then (
        record p { threads = set p.threads i (tid i); live_thr_num = p.live_thr_num + 1 },
        add + 1,
      )
      else (p, add)

  -- The loop, with `n` rounds left before `i` reaches `max_thr_num`; `none` is a read outside
  -- `threads`. The result has the number of threads started.
  unfoldable pub grow_loop : ℕ → ℕ → ℕ → Pool → Option (Pool × ℕ)
  grow_loop zero i add p = some (p, add)
  grow_loop (suc n) i add p =
      elim (ltb add default_thread_num && ltb p.live_thr_num p.max_thr_num) [
        | false ↦ some (p, add)
        | true ↦ elim (get_elem? p.threads i) [
          | none ↦ none
          | some t ↦ grow_loop n (i + 1) (grow_slot i t add p).1 (grow_slot i t add p).0
        ]
      ]

  -- The first half of a round of `admin_thread`, with the queue size and the number of live threads
  -- that it read before.
  unfoldable pub admin_grow : ℕ → ℕ → Pool → Option (Pool × ℕ)
  unfolding grow_loop grow_slot
  admin_grow queue_size live p =
      if leb min_wait_task_num queue_size && leb live p.max_thr_num
      then grow_loop p.max_thr_num 0 0 p
      else some (p, 0)

-- The second half: `default_thread_num` idle workers are to end themselves.
unfoldable pub admin_shrink : ℕ → ℕ → Pool → Pool
admin_shrink busy live p =
    if ltb (busy * 2) live && ltb p.min_thr_num live
    then record p { wait_exit_thr_num = default_thread_num }
    else p

-- The loop of `pthread_join`s from slot `i` on; `live i` is what round `i` reads in `live_thr_num`. The threads
-- joined, and whether the loop ends: if not, it reads outside the array.
unfoldable pub join_threads : (ℕ → ℕ) → ℕ → List ℕ → List ℕ × Bool
join_threads live i [] = ([], not (ltb i (live i)))
join_threads live i (t ∷ ts) =
    let rest = join_threads live (i + 1) ts in
    if ltb i (live i) then (t ∷ rest.0, rest.1) else ([], true)

-- After the joins: the value that `threadpool_free` returns is not looked at.
abbrev pub then_free : List Act → Bool → Option ℤ × List Act → Option ℤ × List Act
then_free acts false freed = (none, acts)
then_free acts true (none, freed) = (none, acts ++ freed)
then_free acts true (some _, freed) = (some (pos 0), acts ++ freed)

-- `threadpool_destroy`: the value returned, which is `none` after an access outside the array, and what it does.
-- The loop of broadcasts takes `rounds` rounds, while `live_thr_num` may change.
unfoldable pub threadpool_destroy : ℕ → (ℕ → ℕ) → Option Pool → Option ℤ × List Act
unfolding join_threads threadpool_free
threadpool_destroy rounds live none = (some (negsuc 0), [])
threadpool_destroy rounds live (some p) =
    let joined = join_threads live 0 p.threads in
    then_free (shut ∷ join p.admin_tid ∷ (replicate rounds broadcast ++ map join joined.0)) joined.1
      (threadpool_free 4 p.at p.queue_at p.threads_at)
