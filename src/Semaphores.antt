-- ===== src/Semaphores.antt =====
-- process/communication/sem/main.c, whose functions sem.c and share_mem/main.c repeat: a semaphore of System V.
pub mod Kernel
pub mod Values
mod Tests
use learn_c_linux.Prelude.{ℕ, zero, suc}
use learn_c_linux.Prelude.Int.{ℤ, pos, negsuc}
use learn_c_linux.Sys.{Prog, done, call, ignore, on_minus_one, ◌>>=◌, ◌>>◌}
use learn_c_linux.Semaphores.Kernel.{SemCall, ftok, semget, set_val, get_val, semop, rmid}

-- No semaphores are asked for.
unfoldable pub create_sem : ℤ → Prog SemCall
create_sem value = call (semget 0) λ sem_id.
    on_minus_one sem_id.res (done (negsuc 0)) (ignore (set_val sem_id.res value) (done sem_id.res))

unfoldable pub sem_p : ℤ → Prog SemCall
sem_p sem_id = call (semop sem_id (pos 1)) λ r. done r.res

unfoldable pub sem_v : ℤ → Prog SemCall
sem_v sem_id = call (semop sem_id (negsuc 0)) λ r. done r.res

-- The command is `GETVAL`, and `value` is not used. The function is void.
unfoldable pub setvalue_sem : ℤ → ℤ → Prog SemCall
setvalue_sem semid value = ignore (get_val semid) (done (pos 0))

unfoldable pub getvalue_sem : ℤ → Prog SemCall
getvalue_sem semid = call (get_val semid) λ r. done r.res

unfoldable pub destroy_sem : ℤ → Prog SemCall
destroy_sem semid = ignore (rmid semid) (done (pos 0))

-- The `for` loop of `main`.
unfoldable pub take_turns : ℕ → ℤ → Prog SemCall
unfolding sem_p sem_v
take_turns zero semid = done (pos 0)
take_turns (suc n) semid = sem_p semid >> (sem_v semid >> take_turns n semid)

unfoldable pub main : Prog SemCall
unfolding create_sem take_turns getvalue_sem destroy_sem
main = call ftok λ key. on_minus_one key.res (done (negsuc 0)) (
    create_sem (pos 1) >>= λ semid.
    take_turns 4 semid >> (getvalue_sem semid >> (destroy_sem semid >> done (pos 0))))
