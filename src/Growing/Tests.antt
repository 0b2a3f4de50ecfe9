-- ===== src/Growing/Tests.antt =====
-- A run of learn_c/memory/init_memory.c.
use learn_c_linux.Prelude.{◌≡◌, refl, true, false, some, none, [], ◌∷◌}
use learn_c_linux.Prelude.Int.{pos, negsuc}
use learn_c_linux.Growing.{main}

two_numbers :
    main (pos 0) ((pos 4, true) ∷ (pos 5, true) ∷ (negsuc 0, true) ∷ []) ≡ some (pos 4 ∷ pos 5 ∷ [])
unfolding main
two_numbers = refl

no_memory : main (pos 0) ((pos 4, true) ∷ (pos 5, false) ∷ (negsuc 0, true) ∷ []) ≡ none
unfolding main
no_memory = refl
