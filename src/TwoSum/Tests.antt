-- ===== src/TwoSum/Tests.antt =====
-- Runs of test.c, and its theorem at one.
use learn_c_linux.Prelude.{ℕ, zero, suc, ◌≡◌, ◌⊎◌, refl, none, some, List, [], ◌∷◌, arith}
use learn_c_linux.Prelude.Int.{ℤ, pos, ◌+ℤ◌}
use learn_c_linux.TwoSum.{two_sum, add_at}
use learn_c_linux.TwoSum.First.{Adds, NoPair, FirstPair, two_sum-first}

abbrev nums : List ℤ
nums = pos 3 ∷ pos 2 ∷ pos 4 ∷ []

found : two_sum nums 3 (pos 6) (some (0, 0)) ≡ some (some (1, 2))
unfolding two_sum ◌+ℤ◌
found = refl

-- As `main` calls it.
null_pointer : two_sum (pos 2 ∷ pos 7 ∷ pos 11 ∷ pos 15 ∷ []) 4 (pos 9) none ≡ none
unfolding two_sum ◌+ℤ◌
null_pointer = refl

nums-Adds : Adds nums 3 (pos 6)
unfolding add_at ◌+ℤ◌
nums-Adds zero zero apart inside = absurd (omega (arith, apart))
nums-Adds zero (suc zero) apart inside = (pos 5, refl)
nums-Adds zero (suc (suc zero)) apart inside = (pos 7, refl)
nums-Adds zero (suc (suc (suc j))) apart inside = absurd (omega (arith, inside))
nums-Adds (suc zero) zero apart inside = absurd (omega (arith, apart))
nums-Adds (suc zero) (suc zero) apart inside = absurd (omega (arith, apart))
nums-Adds (suc zero) (suc (suc zero)) apart inside = (pos 6, refl)
nums-Adds (suc zero) (suc (suc (suc j))) apart inside = absurd (omega (arith, inside))
nums-Adds (suc (suc i)) j apart inside = absurd (omega (arith, apart, inside))

two_sum-first_example :
    ((two_sum nums 3 (pos 6) (some (0, 0)) ≡ some (some (0, 0))) × NoPair nums 3 (pos 6) 0)
    ⊎ ((i j : ℕ) × (two_sum nums 3 (pos 6) (some (0, 0)) ≡ some (some (i, j)))
        × (two_sum nums 3 (pos 6) none ≡ none)
        × FirstPair nums 3 (pos 6) 0 i j)
two_sum-first_example = two_sum-first nums 3 (pos 6) (0, 0) nums-Adds
