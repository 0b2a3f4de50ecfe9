-- ===== src/ByteOrder.antt =====
-- socket/byte_order.c: numbers before and after htons and htonl, byte by byte. The two functions, and `memory`,
-- the bytes that a union's `unsigned long` has in memory, are arguments.
mod Tests
use learn_c_linux.Prelude.{
  ℕ, zero, suc, ◌+◌, ◌==◌, if◌then◌else◌, Option, none, some, ◌>>=◌, List, [], ◌∷◌, get_elem?,
}

abbrev pub bits16 : ℕ
bits16 = 16

abbrev pub bits32 : ℕ
bits32 = 32

-- The loop, with `n` bytes left from index `i` on: what is printed, each number in base 16 with no leading zeros.
unfoldable pub show_from : ℕ → ℕ → List ℕ → Option (List ℕ)
show_from zero i begin = some []
show_from (suc n) i begin = do
  byte ← get_elem? begin i
  rest ← show_from n (i + 1) begin
  some (byte ∷ rest)

unfoldable pub showvalue : List ℕ → ℕ → Option (List ℕ)
unfolding show_from
showvalue begin flag =
    show_from (if flag == bits16 then 2 else if flag == bits32 then 4 else 0) 0 begin

-- What `main` prints of one number: itself, turned once, and turned twice.
unfoldable pub show_turns : (ℕ → ℕ) → (ℕ → List ℕ) → ℕ → ℕ → Option (List (List ℕ))
unfolding showvalue
show_turns turn memory flag orig = do
  first ← showvalue (memory orig) flag
  second ← showvalue (memory (turn orig)) flag
  third ← showvalue (memory (turn (turn orig))) flag
  some (first ∷ second ∷ third ∷ [])

unfoldable pub main : (ℕ → ℕ) → (ℕ → ℕ) → (ℕ → List ℕ) → Option (List (List ℕ) × List (List ℕ))
unfolding show_turns
main htons htonl memory = do
  short ← show_turns htons memory bits16 43981
  long ← show_turns htonl memory bits32 305419896
  some (short, long)
