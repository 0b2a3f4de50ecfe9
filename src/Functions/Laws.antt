-- ===== src/Functions/Laws.antt =====
-- learn_c/function: what swap.c and variable_arg.c compute.
use learn_c_linux.Prelude.{
  ℕ, zero, suc, Bool, ◌&&◌, ◌≡◌, ◌≢◌, refl, true, false, if◌then◌else◌, Bool-cases, inl, inr, none,
  some, List, [], ◌∷◌, take, arith,
}
use learn_c_linux.Prelude.Int.{ℤ, pos, ◌+ℤ◌, is_int}
use learn_c_linux.Functions.{swap_num, add_args, sum}

-- `swap_num` exchanges what stands at two addresses, which may be the same, and changes nothing else.
pub swap_num-exchanges :
    (a b : ℕ) (memory : ℕ → ℤ)
    → (swap_num a b memory a ≡ memory b)
      × (swap_num a b memory b ≡ memory a)
      × ((p : ℕ) → p ≢ a → p ≢ b → swap_num a b memory p ≡ memory p)
unfolding swap_num
swap_num-exchanges a b memory = (ground arith, ground arith, λ p na nb. ground (arith, na, nb))

-- The sum of a list, whatever its size.
abbrev pub total_from : ℤ → List ℤ → ℤ
total_from z [] = z
total_from z (arg ∷ args) = total_from (z +ℤ arg) args

-- Whether there are `n` arguments, and no sum on the way leaves the range.
abbrev pub stays_int : ℕ → ℤ → List ℤ → Bool
stays_int zero z args = true
stays_int (suc n) z [] = false
stays_int (suc n) z (arg ∷ args) = is_int (z +ℤ arg) && stays_int n (z +ℤ arg) args

add_args-total_from :
    (n : ℕ) (z : ℤ) (args : List ℤ)
    → add_args n z args ≡ (if stays_int n z args then some (total_from z (take n args)) else none)
unfolding add_args
add_args-total_from zero z args = refl
add_args-total_from (suc n) z [] = refl
add_args-total_from (suc n) z (arg ∷ args) = elim (Bool-cases (is_int (z +ℤ arg))) [
  | inl fits ↦ rw (add_args, fits) (add_args-total_from n (z +ℤ arg) args)
  | inr over ↦ rw (add_args, over) refl
]

-- `sum` returns the sum of the first `n` of its arguments, just when there are so many and no sum on the way
-- leaves the range of `int`.
pub sum-total_from :
    (n : ℕ) (args : List ℤ)
    → sum n args
      ≡ (if stays_int n (pos 0) args then some (total_from (pos 0) (take n args)) else none)
unfolding sum
sum-total_from n args = add_args-total_from n (pos 0) args
