-- ===== src/Semaphores/Values.antt =====
-- process/communication/sem/main.c: the value of the semaphore.
use learn_c_linux.Prelude.{
  ℕ, ◌+◌, ◌-◌, ◌<◌, ◌≡◌, ◌⊎◌, true, false, leb, if◌then◌else◌, some, none, List, [], ◌∷◌, arith,
}
use learn_c_linux.Prelude.Int.{ℤ, pos, negsuc}
use learn_c_linux.Sys.{Answer, returned, run, returned_by, obeys, honest, final}
use learn_c_linux.Semaphores.Kernel.{Sems, semvmx, semaphores}
use learn_c_linux.Semaphores.{create_sem, sem_p, sem_v, setvalue_sem, take_turns, main}

-- The set is there, with this value.
abbrev Is : Sems → Sems → ℤ → Type 0
Is s s' r = s' ≡ s

-- What holds when `main` returns: it returned -1, or the set is gone.
abbrev Removed : Sems → ℤ → Type 0
Removed s r = (r ≡ negsuc 0) ⊎ (s ≡ none)

-- Where there is no set yet, `main` cannot make one: once `ftok` has given a key, three answers of a kernel that
-- keeps to its manual pages are enough for a call that fails, and what is not created stays so.
pub main-refused :
    (key : ℕ) (b c : Answer) (tape : List Answer)
    → let t = run main (returned (pos key) ∷ b ∷ c ∷ tape) in
      honest semaphores none t ≡ true → obeys semaphores none t ≡ false
unfolding main create_sem take_turns sem_p
main-refused key b c tape fair = ground (arith, fair)

-- On a semaphore of a value below the greatest, and with a kernel that answers as its manual pages say: `Sem_P`
-- returns 0 and adds one; `Sem_V` returns 0 and takes one away, or at 0 returns -1 and leaves 0; `SetvalueSem`
-- leaves the value as it is, whatever value it is given.
pub sem_p-adds :
    (k v : ℕ) (value : ℤ) (a b c : Answer)
    → v < semvmx
    → honest semaphores (some (k, v)) (run (sem_p (pos k)) (a ∷ [])) ≡ true
    → honest semaphores (some (k, v)) (run (sem_v (pos k)) (b ∷ [])) ≡ true
    → (returned_by (sem_p (pos k)) (a ∷ []) ≡ some (pos 0))
      × (final semaphores (some (k, v)) (run (sem_p (pos k)) (a ∷ [])) ≡ some (k, v + 1))
      × (returned_by (sem_v (pos k)) (b ∷ []) ≡ some (if leb 1 v then pos 0 else negsuc 0))
      × (final semaphores (some (k, v)) (run (sem_v (pos k)) (b ∷ [])) ≡ some (k, v - 1))
      × (final semaphores (some (k, v)) (run (setvalue_sem (pos k) value) (c ∷ [])) ≡ some (k, v))
unfolding sem_p sem_v setvalue_sem
sem_p-adds k v value a b c room fair fair' = (
  ground (arith, room, fair),
  ground (arith, room, fair),
  ground (arith, room, fair'),
  ground (arith, room, fair'),
  ground arith,
)
