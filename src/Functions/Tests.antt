-- ===== src/Functions/Tests.antt =====
-- Runs of the small functions of learn_c/function.
use learn_c_linux.Prelude.{◌+◌, ◌*◌, ◌-◌, ◌/◌, ◌≡◌, ◌==◌, refl, some, none, [], ◌∷◌, if◌then◌else◌}
use learn_c_linux.Prelude.Int.{pos, ◌+ℤ◌, ◌*ℤ◌}
use learn_c_linux.Functions.{calculate, get_world, square, test_callback, swap_num, sum}

-- With natural numbers in place of floats.
six_times_seven :
    calculate (λ a b. a + b) (λ a b. a - b) (λ a b. a * b) (λ a b. a / b) 6 42 7 ≡ some 42
unfolding calculate
six_times_seven = refl

no_function : calculate (λ a b. a + b) (λ a b. a - b) (λ a b. a * b) (λ a b. a / b) 6 37 7 ≡ none
unfolding calculate
no_function = refl

called_back : test_callback square ≡ some (pos 100)
unfolding test_callback square ◌*ℤ◌
called_back = refl

too_large : square (pos 65536) ≡ none
unfolding square ◌*ℤ◌
too_large = refl

cap : get_world 67 ≡ 99 ∷ 97 ∷ 112 ∷ []
unfolding get_world
cap = refl

three : sum 3 (pos 20 ∷ pos 50 ∷ pos 98 ∷ []) ≡ some (pos 168)
unfolding sum ◌+ℤ◌
three = refl

swapped : swap_num 1 2 (λ p. if p == 1 then pos 10 else pos 20) 2 ≡ pos 10
unfolding swap_num
swapped = refl
