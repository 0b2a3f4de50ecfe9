-- ===== src/SharedMemory/Tests.antt =====
-- A run of process/communication/share_mem/main.c.
use learn_c_linux.Prelude.{◌≡◌, refl, some, List, [], ◌∷◌}
use learn_c_linux.Prelude.Int.{pos}
use learn_c_linux.Sys.{Answer, returned, returned_by}
use learn_c_linux.SharedMemory.{main}

-- The parent: a key, the memory 6, the set 5, the process 77, and the address 4096.
abbrev as_parent : List Answer
as_parent =
    returned (pos 9)
    ∷ returned (pos 6)
    ∷ returned (pos 5)
    ∷ returned (pos 0)
    ∷ returned (pos 77)
    ∷ returned (pos 4096)
    ∷ returned (pos 0)
    ∷ returned (pos 0)
    ∷ returned (pos 0)
    ∷ []

parent_ends : returned_by main as_parent ≡ some (pos 0)
unfolding main
parent_ends = refl
