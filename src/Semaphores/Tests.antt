-- ===== src/Semaphores/Tests.antt =====
-- A run of process/communication/sem/main.c, and its theorem at it.
use learn_c_linux.Prelude.{◌≡◌, refl, some, List, [], ◌∷◌, ◌++◌}
use learn_c_linux.Prelude.Int.{pos}
use learn_c_linux.Sys.{Answer, returned, returned_by}
use learn_c_linux.Semaphores.{main}

abbrev four_turns : List Answer
four_turns = let ok = returned (pos 0) in ok ∷ ok ∷ ok ∷ ok ∷ ok ∷ ok ∷ ok ∷ ok ∷ []

-- The key is 9, the set 5, which had the value 3; it is read as 1 after the loop.
abbrev with_set : List Answer
with_set =
    returned (pos 9)
    ∷ returned (pos 5)
    ∷ returned (pos 0)
    ∷ (four_turns ++ (returned (pos 1) ∷ returned (pos 0) ∷ []))

returns_0 : returned_by main with_set ≡ some (pos 0)
unfolding main
returns_0 = refl
