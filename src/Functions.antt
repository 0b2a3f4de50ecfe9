-- ===== src/Functions.antt =====
-- learn_c/function: the small functions of return_func.c, func_point.c, swap.c and variable_arg.c.
pub mod Laws
mod Tests
use learn_c_linux.Prelude.{
  ℕ, zero, suc, Bool, true, false, ◌==◌, ◌&&◌, ltb, if◌then◌else◌, Option, none, some, ◌>>=◌, List,
  [], ◌∷◌,
}
use learn_c_linux.Prelude.Int.{ℤ, pos, negsuc, ◌+ℤ◌, ◌*ℤ◌, is_int}

-- `none` is an overflow.
abbrev pub checked : ℤ → Option ℤ
checked z = if is_int z then some z else none

-- return_func.c, with the numbers of type `float` and their four operations as arguments. `none` is the end
-- of `select` without a value, which its caller uses.
module _ {F : Type 0} (add sub cheng chu : F → F → F) where
  unfoldable pub select : ℕ → Option (F → F → F)
  select symbol =
      if symbol == 43
      then some add
      else if symbol == 45
      then some sub
      else if symbol == 42
      then some cheng
      else if symbol == 47
      then some chu
      else none

  -- With what `scanf` has read; the result is what is printed.
  unfoldable pub calculate : F → ℕ → F → Option F
  unfolding select
  calculate num1 symbol num2 = select symbol >>= λ fp. some (fp num1 num2)

-- func_point.c
unfoldable pub get_world : ℕ → List ℕ
get_world c =
    if c == 65
    then 97 ∷ 112 ∷ 112 ∷ 108 ∷ 101 ∷ []
    else if c == 66
    then 98 ∷ 97 ∷ 110 ∷ 97 ∷ 110 ∷ 97 ∷ []
    else if c == 67
    then 99 ∷ 97 ∷ 112 ∷ []
    else 101 ∷ 110 ∷ 100 ∷ []

unfoldable pub square : ℤ → Option ℤ
square num = checked (num *ℤ num)

unfoldable pub test_callback : (ℤ → Option ℤ) → Option ℤ
test_callback fp = fp (pos 10)

-- swap.c, on a memory of ints.
unfoldable pub swap_num : ℕ → ℕ → (ℕ → ℤ) → ℕ → ℤ
swap_num a b memory =
    let temp = memory a in
    let first : ℕ → ℤ = λ p. if p == a then memory b else memory p in
    λ p. if p == b then temp else first p

-- The loop of variable_arg.c, with `n` arguments left to add; `none` is an argument that is not there, or an
-- overflow.
unfoldable pub add_args : ℕ → ℤ → List ℤ → Option ℤ
add_args zero sum args = some sum
add_args (suc n) sum [] = none
add_args (suc n) sum (arg ∷ args) = elim (checked (sum +ℤ arg)) [
  | none ↦ none
  | some sum' ↦ add_args n sum' args
]

unfoldable pub sum : ℕ → List ℤ → Option ℤ
unfolding add_args
sum n args = add_args n (pos 0) args
