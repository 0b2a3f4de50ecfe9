-- ===== src/SharedMemory/Order.antt =====
-- process/communication/share_mem/main.c: whether the child waits for the parent.
use learn_c_linux.Prelude.{ℕ, ◌≡◌, refl, true, some, [], ◌∷◌, arith}
use learn_c_linux.Prelude.Int.{ℤ, pos, negsuc}
use learn_c_linux.Sys.{Answer, run, next_call, honest, final}
use learn_c_linux.Semaphores.{sem_v}
use learn_c_linux.Semaphores.Kernel.{semaphores, load}
use learn_c_linux.SharedMemory.{child}

-- Before the parent has called `Sem_P` the semaphore has the value 0. With a kernel that answers as its manual
-- pages say, `Sem_V` in the child fails there, the semaphore keeps its value, and the child reads the shared
-- memory all the same.
pub child-loads :
    (k : ℕ) (shmid : ℤ) (shmc b : Answer)
    → honest semaphores (some (k, 0)) (run (child shmid (pos k)) (shmc ∷ b ∷ [])) ≡ true
    → (b.res ≡ negsuc 0)
      × (final semaphores (some (k, 0)) (run (child shmid (pos k)) (shmc ∷ b ∷ [])) ≡ some (k, 0))
      × (next_call (child shmid (pos k)) (shmc ∷ b ∷ []) ≡ some (load shmc.res))
unfolding child sem_v
child-loads k shmid shmc b fair = (ground (arith, fair), ground (arith, fair), refl)
