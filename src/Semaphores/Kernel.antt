-- ===== src/Semaphores/Kernel.antt =====
-- process/communication/sem/main.c: its system calls, and what their manual pages say that they return.
use learn_c_linux.Prelude.{
  ℕ, zero, suc, ◌+◌, ◌-◌, Bool, true, false, ◌&&◌, ◌==◌, leb, if◌then◌else◌, Option, none, some,
}
use learn_c_linux.Prelude.Int.{ℤ, pos, negsuc}
use learn_c_linux.Sys.{Answer, Protocol}

-- `semget` has the number of semaphores that are asked for and `IPC_CREAT`, `semop` what is added to the
-- semaphore and `IPC_NOWAIT`; `set_val`, `get_val` and `rmid` are the commands of `semctl`. The others are of share_mem/main.c:
-- `store` and `load` are its accesses to the shared memory at an address.
pub data SemCall : Type 0 where
  ftok : SemCall
  semget : ℕ → SemCall
  set_val : ℤ → ℤ → SemCall
  get_val : ℤ → SemCall
  semop : ℤ → ℤ → SemCall
  rmid : ℤ → SemCall
  shmget : SemCall
  fork : SemCall
  shmat : ℤ → SemCall
  shmdt : ℤ → SemCall
  store : ℤ → SemCall
  load : ℤ → SemCall

-- The set that belongs to the program's key, if there is one: its id and the value of its semaphore.
abbrev pub Sems : Type 0
Sems = Option (ℕ × ℕ)

-- The values go from 0 to SEMVMX.
abbrev pub semvmx : ℕ
semvmx = 32767

abbrev is_id : ℕ → ℤ → Bool
is_id k (pos n) = n == k
is_id k (negsuc n) = false

abbrev is_value : ℤ → Bool
is_value (pos n) = leb n semvmx
is_value (negsuc n) = false

abbrev pub sum : ℕ → ℤ → ℤ
sum v (pos n) = pos (v + n)
sum v (negsuc n) = if leb (suc n) v then pos (v - suc n) else negsuc 0

-- Whether the call succeeds. A new set needs at least one semaphore.
abbrev pub succeeds : Sems → SemCall → Bool
succeeds s ftok = true
succeeds none (semget zero) = false
succeeds none (semget (suc n)) = true
succeeds (some (k, v)) (semget n) = true
succeeds none (set_val id z) = false
succeeds (some (k, v)) (set_val id z) = is_id k id && is_value z
succeeds none (get_val id) = false
succeeds (some (k, v)) (get_val id) = is_id k id
succeeds none (semop id d) = false
succeeds (some (k, v)) (semop id d) = is_id k id && is_value (sum v d)
succeeds none (rmid id) = false
succeeds (some (k, v)) (rmid id) = is_id k id
succeeds s _ = true

-- Whether a call that succeeds may return this. Of the calls on processes and shared memory, anything.
abbrev may_return : Sems → SemCall → ℤ → Bool
may_return s ftok z = true
may_return none (semget n) (pos k) = true
may_return none (semget n) (negsuc k) = false
may_return (some (k, v)) (semget n) z = is_id k z
may_return (some (k, v)) (get_val id) z = is_id v z
may_return none (get_val id) z = false
may_return s (set_val id z') z = is_id 0 z
may_return s (semop id d) z = is_id 0 z
may_return s (rmid id) z = is_id 0 z
may_return s _ z = true

abbrev is_minus_one : ℤ → Bool
is_minus_one (negsuc zero) = true
is_minus_one (negsuc (suc n)) = false
is_minus_one (pos n) = false

abbrev change : Sems → SemCall → Answer → Sems
change none (semget n) a = set_of a.res
  where
    set_of : ℤ → Sems
    set_of (pos k) = some (k, 0)
    set_of (negsuc k) = none
change (some (k, v)) (set_val id (pos z)) a = some (k, z)
change (some (k, v)) (semop id d) a = with_value (sum v d)
  where
    with_value : ℤ → Sems
    with_value (pos n) = some (k, n)
    with_value (negsuc n) = some (k, v)
change s (rmid id) a = none
change s _ a = s

abbrev after_call : Sems → SemCall → Answer → Sems
after_call s c a = if succeeds s c then change s c a else s

-- What fails returns -1.
abbrev honest_answer : Sems → SemCall → Answer → Bool
honest_answer s c a = if succeeds s c then may_return s c a.res else is_minus_one a.res

-- A program keeps to it when every call of it succeeds.
abbrev pub semaphores : Protocol SemCall Sems
semaphores = record { allows = succeeds; after = after_call; is_honest = honest_answer }
