-- ===== src/ThreadLock/Tests.antt =====
-- A run of thread/thread_lock.c, and its theorems at it.
use learn_c_linux.Prelude.{◌≡◌, ◌⊎◌, refl, true}
use learn_c_linux.ThreadLock.{
  producter, consumer, locking, loading, ended, advance, Threads, produce, consume, initial, Reach,
  start, later,
}
use learn_c_linux.ThreadLock.Safety.{Consistent, Reach-Consistent, CanMove, Reach-CanMove}

-- The producer has the mutex, and the consumer waits for it.
abbrev contended : Threads
contended = record initial {
  shared = record (initial.shared) { locked = true };
  producter_pc = loading;
  consumer_pc = locking;
}

Reach-contended : Reach contended
unfolding advance
Reach-contended = later (later (later start (produce refl)) (consume refl)) (produce refl)

Reach-Consistent_example : Consistent contended
Reach-Consistent_example = Reach-Consistent Reach-contended

Reach-CanMove_example :
    CanMove producter contended.shared contended.producter_pc
    ⊎ (CanMove consumer contended.shared contended.consumer_pc
        ⊎ ((contended.producter_pc ≡ ended) × (contended.consumer_pc ≡ ended)))
Reach-CanMove_example = Reach-CanMove Reach-contended
