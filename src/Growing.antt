-- ===== src/Growing.antt =====
-- learn_c/memory/init_memory.c: numbers that are read into an array, which grows by `realloc`, up to -1. What
-- is typed and whether each `realloc` succeeds are arguments; `none` is a wait for more to be typed, or a
-- write through `NULL`.
pub mod Typed
mod Tests
use learn_c_linux.Prelude.{
  ℕ, zero, suc, ◌-◌, Bool, true, false, if◌then◌else◌, Option, none, some, ◌>>=◌, List, [], ◌∷◌,
  ◌++◌, length, take,
}
use learn_c_linux.Prelude.Int.{ℤ, pos, negsuc}

abbrev pub is_minus_one : ℤ → Bool
is_minus_one (negsuc zero) = true
is_minus_one (negsuc (suc n)) = false
is_minus_one (pos n) = false

-- The `while` loop, at its test; `arr` has what has been stored.
unfoldable pub read_numbers : ℤ → List ℤ → List (ℤ × Bool) → Option (List ℤ)
read_numbers temp arr [] = if is_minus_one temp then some arr else none
read_numbers temp arr ((number, has_room) ∷ typed) =
    let rest = read_numbers number (arr ++ (number ∷ [])) typed in
    if is_minus_one temp then some arr else if has_room then rest else none

-- `temp` is what the variable holds before anything is written to it. The loop that prints goes up to
-- `count - 1`, and `count` is 0 where nothing has been read.
unfoldable pub main : ℤ → List (ℤ × Bool) → Option (List ℤ)
unfolding read_numbers
main temp typed = read_numbers temp [] typed >>= λ arr. some (take (length arr - 1) arr)
