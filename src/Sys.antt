-- ===== src/Sys.antt =====
-- Programs as trees of system calls, for the programs of the repository whose work is done by the
-- kernel. The kernel is a list of answers, one for each call, and is not restricted by anything here.
pub mod Rule
pub mod Depth
use learn_c_linux.Prelude.{ℕ, zero, suc, Bool, true, ◌&&◌, Option, none, some, List, [], ◌∷◌}
use learn_c_linux.Prelude.Int.{ℤ, pos, negsuc}

-- What a call returns, and what it writes into the caller's memory: the bytes of a message, or the
-- descriptors of the events.
pub record Answer : Type 0 where
  pub res : ℤ
  pub bytes : List ℕ

-- The answer of a call that writes nothing, and its failure.
abbrev pub returned : ℤ → Answer
returned z = record { res = z; bytes = [] }

abbrev pub refused : Answer
refused = returned (negsuc 0)

-- `done` is a `return` of the function at hand, `exit` ends the whole process, and `cut` stands for a loop
-- whose rounds are not followed any further. `C` is the type of the calls.
pub data Prog (C : Type 0) : Type 0 where
  done : ℤ → Prog C
  exit : ℤ → Prog C
  cut : Prog C
  call : C → (Answer → Prog C) → Prog C

module _ {C : Type 0} where
  -- A call of a function, and what follows it.
  infixl 5 ◌>>=◌ ◌>>◌
  abbrev pub ◌>>=◌ : Prog C → (ℤ → Prog C) → Prog C
  done r >>= k = k r
  exit r >>= k = exit r
  cut >>= k = cut
  call c f >>= k = call c λ a. f a >>= k

  abbrev pub ◌>>◌ : Prog C → Prog C → Prog C
  p >> q = p >>= λ _. q

  -- A call whose result is not looked at.
  abbrev pub ignore : C → Prog C → Prog C
  ignore c p = call c λ _. p

  -- The tests of a result: below 0 or not, and equal to 0 or not.
  abbrev pub on_sign : ℤ → Prog C → (ℕ → Prog C) → Prog C
  on_sign (pos n) bad good = good n
  on_sign (negsuc n) bad good = bad

  abbrev pub on_zero : ℤ → Prog C → Prog C → Prog C
  on_zero (pos zero) yes_zero other = yes_zero
  on_zero (pos (suc n)) yes_zero other = other
  on_zero (negsuc n) yes_zero other = other

  -- The test for -1.
  abbrev pub on_minus_one : ℤ → Prog C → Prog C → Prog C
  on_minus_one (negsuc zero) failed other = failed
  on_minus_one (negsuc (suc n)) failed other = other
  on_minus_one (pos n) failed other = other

  -- The test `size > 0`.
  abbrev pub on_positive : ℤ → (ℕ → Prog C) → Prog C → Prog C
  on_positive (pos zero) more other = other
  on_positive (pos (suc n)) more other = more (suc n)
  on_positive (negsuc n) more other = other

  -- The calls with their answers, in order, as far as answers are given.
  abbrev pub run : Prog C → List Answer → List (C × Answer)
  run (done r) tape = []
  run (exit r) tape = []
  run cut tape = []
  run (call c k) [] = []
  run (call c k) (a ∷ tape) = (c, a) ∷ run (k a) tape

  -- What the program returns, where it ends within the answers given.
  abbrev pub result : Prog C → List Answer → Option ℤ
  result (done r) tape = some r
  result (exit r) tape = some r
  result cut tape = none
  result (call c k) [] = none
  result (call c k) (a ∷ tape) = result (k a) tape

  -- The same, where it ends with a `return` of the function itself.
  abbrev pub returned_by : Prog C → List Answer → Option ℤ
  returned_by (done r) tape = some r
  returned_by (exit r) tape = none
  returned_by cut tape = none
  returned_by (call c k) [] = none
  returned_by (call c k) (a ∷ tape) = returned_by (k a) tape

  -- The call that the program makes after these answers.
  abbrev pub next_call : Prog C → List Answer → Option C
  next_call (done r) tape = none
  next_call (exit r) tape = none
  next_call cut tape = none
  next_call (call c k) [] = some c
  next_call (call c k) (a ∷ tape) = next_call (k a) tape

-- A kernel with a state, in place of a list of answers: it looks at the call that it answers. The program is
-- followed until the kernel has no answer.
module _ {C S : Type 0} (kernel : S → C → Option (Answer × S)) where
  abbrev pub run_on : S → Prog C → List (C × Answer)
  run_on s (done r) = []
  run_on s (exit r) = []
  run_on s cut = []
  run_on s (call c k) = elim (kernel s c) [ none ↦ [] | some (a, s') ↦ (c, a) ∷ run_on s' (k a) ]

-- A protocol: the state that the calls are followed in, which calls it allows, how an answer changes it,
-- and which answers are honest in it.
pub record Protocol (C S : Type 0) : Type 0 where
  pub allows : S → C → Bool
  pub after : S → C → Answer → S
  pub is_honest : S → C → Answer → Bool

module _ {C S : Type 0} (p : Protocol C S) where
  abbrev pub obeys : S → List (C × Answer) → Bool
  obeys s [] = true
  obeys s ((c, a) ∷ t) = p.allows s c && obeys (p.after s c a) t

  abbrev pub honest : S → List (C × Answer) → Bool
  honest s [] = true
  honest s ((c, a) ∷ t) = p.is_honest s c a && honest (p.after s c a) t

  -- The state after the calls.
  abbrev pub final : S → List (C × Answer) → S
  final s [] = s
  final s ((c, a) ∷ t) = final (p.after s c a) t
