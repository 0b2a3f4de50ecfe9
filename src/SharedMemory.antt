-- ===== src/SharedMemory.antt =====
-- process/communication/share_mem/main.c: a parent that writes to shared memory, and a child that reads it.
pub mod Order
mod Tests
use learn_c_linux.Prelude.{ℕ}
use learn_c_linux.Prelude.Int.{ℤ, pos, negsuc}
use learn_c_linux.Sys.{Prog, done, call, ignore, on_minus_one, on_positive, on_zero, ◌>>=◌, ◌>>◌}
use learn_c_linux.Semaphores.Kernel.{SemCall, ftok, shmget, fork, shmat, shmdt, store, load}
use learn_c_linux.Semaphores.{create_sem, sem_p, sem_v}

-- The parent's branch of `main`, with the ids of the shared memory and of the semaphore. It sleeps between the
-- `memcpy` and `Sem_P`.
unfoldable pub parent : ℤ → ℤ → Prog SemCall
unfolding sem_p
parent shmid semid =
    call (shmat shmid)
      λ shms. ignore (store shms.res) (sem_p semid >> ignore (shmdt shms.res) (done (pos 0)))

-- The child's.
unfoldable pub child : ℤ → ℤ → Prog SemCall
unfolding sem_v
child shmid semid =
    call (shmat shmid)
      λ shmc. sem_v semid >> ignore (load shmc.res) (ignore (shmdt shmc.res) (done (pos 0)))

unfoldable pub main : Prog SemCall
unfolding create_sem parent child
main = call ftok λ key. call shmget λ shmid. create_sem (pos 0) >>= λ semid. call fork λ p.
    on_minus_one p.res (done (negsuc 0)) (
      on_positive p.res (λ _. parent shmid.res semid)
        (on_zero p.res (child shmid.res semid) (done (pos 0))))
