-- ===== src/ThreadSem/Tests.antt =====
-- A run of thread/thread_sem.c, and its theorem at it.
use learn_c_linux.Prelude.{◌+◌, ◌≤◌, ◌≡◌, ◌⊎◌, refl, none, false}
use learn_c_linux.ThreadSem.{
  testing, ended, working, Threads, producter_handle, conmuser_handle, produce, consume, stop,
  initial, Reach, start, later,
}
use learn_c_linux.ThreadSem.Stuck.{IsStuck, CanMove, HaveEnded, stay, produced, stop-ends}

abbrev waiting : Threads
waiting = record (initial 0) { running = false; producter = ended; conmuser = working }

Reach-waiting : Reach (initial 0) waiting
unfolding producter_handle conmuser_handle
Reach-waiting = later (later (later start (consume refl)) stop) (produce refl)

waiting_blocked : conmuser_handle waiting working ≡ none
unfolding conmuser_handle
waiting_blocked = refl

-- `running` is cleared while the producer is about to post and the consumer waits.
abbrev cleared : Threads
cleared = record (initial 0) { running = false; producter = working; conmuser = working }

abbrev posted : Threads
posted = record cleared { sem = 1; producter = testing }

stop-ends_example :
    (1 ≤ 4)
    × (posted.sem ≤ cleared.sem + 1)
    × (CanMove posted ⊎ (HaveEnded posted ⊎ IsStuck posted))
    × ((s : Threads) × Reach (initial 16) s × ((v : Threads) → Reach s v → IsStuck v))
unfolding producter_handle
stop-ends_example = stop-ends 16 1 cleared posted refl (produced stay refl)
