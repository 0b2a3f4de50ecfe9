-- ===== src/Growing/Typed.antt =====
-- learn_c/memory/init_memory.c: what it prints.
use learn_c_linux.Prelude.{
  ◌-◌, ◌≡◌, refl, ap, Bool, true, false, if◌then◌else◌, Bool-cases, inl, inr, some, List, [], ◌∷◌,
  ◌++◌, length, length-append, take, take-append, append-nil, append_assoc, arith,
}
use learn_c_linux.Prelude.Int.{ℤ, negsuc}
use learn_c_linux.Growing.{is_minus_one, read_numbers, main}

-- The numbers typed, each with memory for it, and -1 behind them.
abbrev pub ended : List ℤ → List (ℤ × Bool)
ended [] = (negsuc 0, true) ∷ []
ended (number ∷ numbers) = (number, true) ∷ ended numbers

abbrev pub NoEnd : List ℤ → Type 0
NoEnd [] = Unit
NoEnd (number ∷ numbers) = (is_minus_one number ≡ false) × NoEnd numbers

read_numbers-ended :
    (temp : ℤ) (arr numbers : List ℤ)
    → is_minus_one temp ≡ false
    → NoEnd numbers
    → read_numbers temp arr (ended numbers) ≡ some ((arr ++ numbers) ++ (negsuc 0 ∷ []))
unfolding read_numbers
read_numbers-ended temp arr [] go n = rw (go, append-nil arr) refl
read_numbers-ended temp arr (number ∷ numbers) go n =
    rw (go, read_numbers-ended number (arr ++ (number ∷ [])) numbers n.0 n.1)
      (ap (λ xs. some (xs ++ (negsuc 0 ∷ []))) (append_assoc arr (number ∷ []) numbers))

read_numbers-stopped :
    (temp : ℤ) (typed : List (ℤ × Bool))
    → is_minus_one temp ≡ true
    → read_numbers temp [] typed ≡ some []
unfolding read_numbers
read_numbers-stopped temp [] stop = rw stop refl
read_numbers-stopped temp ((number, room) ∷ typed) stop = rw stop refl

take-snoc : (xs : List ℤ) (z : ℤ) → take (length (xs ++ (z ∷ [])) - 1) (xs ++ (z ∷ [])) ≡ xs
take-snoc xs z =
    let shorter : length (xs ++ (z ∷ [])) - 1 ≡ length xs =
      omega (arith, length-append xs (z ∷ [])) in
    rw shorter (take-append xs (z ∷ []))

-- Where the variable does not happen to hold -1 at the start, and there is memory, `main` prints the numbers that
-- are typed before the first -1, in order; where it does, it reads nothing and prints nothing.
pub main-prints_typed :
    (temp : ℤ) (numbers : List ℤ)
    → NoEnd numbers
    → main temp (ended numbers) ≡ some (if is_minus_one temp then [] else numbers)
unfolding main
main-prints_typed temp numbers n = elim (Bool-cases (is_minus_one temp)) [
  | inl stop ↦ rw (read_numbers-stopped temp (ended numbers) stop, stop) refl
  | inr go ↦
      rw (read_numbers-ended temp [] numbers go n, go) (ap some (take-snoc numbers (negsuc 0)))
]
