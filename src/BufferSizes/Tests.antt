-- ===== src/BufferSizes/Tests.antt =====
-- A run of socket/socket_opt/cache_area.c, and its theorem at it.
use learn_c_linux.Prelude.{ℕ, ◌≡◌, ◌⊎◌, refl, some, List, [], ◌∷◌, arith}
use learn_c_linux.Prelude.Int.{pos, negsuc}
use learn_c_linux.Sys.{Answer, returned, refused, run, returned_by, final}
use learn_c_linux.BufferSizes.{socket, got, show_size, main}
use learn_c_linux.BufferSizes.Kernel.{at_start, buffers}
use learn_c_linux.BufferSizes.Sizes.{main-prints}

abbrev size : ℕ → Answer
size n = record { res = pos 0; bytes = n ∷ [] }

abbrev usual : List Answer
usual =
    let ok = returned (pos 0) in
    returned (pos 3)
    ∷ size 16384
    ∷ ok
    ∷ size 131072
    ∷ ok
    ∷ ok
    ∷ ok
    ∷ size 8192
    ∷ ok
    ∷ size 16384
    ∷ ok
    ∷ []

no_socket : run (main 0) (refused ∷ usual) ≡ (socket, refused) ∷ []
unfolding main
no_socket = refl

-- At a stack address whose low 32 bits are 0x1000, and at one where they are 0xffffe000, which is negative.
main-prints_example :
    ((returned_by (main 0x7ffe00001000) usual ≡ some (negsuc 0))
      × ((final
            (buffers 212992 212992)
            (at_start 16384 131072)
            (run (main 0x7ffe00001000) usual)).shown
          ≡ []))
    ⊎ ((returned_by (main 0x7ffe00001000) usual ≡ some (pos 0))
        × ((final
              (buffers 212992 212992)
              (at_start 16384 131072)
              (run (main 0x7ffe00001000) usual)).shown
            ≡ 16 ∷ 128 ∷ 8 ∷ 16 ∷ []))
unfolding main show_size got
main-prints_example =
    main-prints 0x7ffe00001000 212992 212992 16384 131072 usual (omega arith) (omega arith)
      (omega arith) refl

abbrev unset : List Answer
unset =
    let ok = returned (pos 0) in
    returned (pos 3)
    ∷ size 16384
    ∷ ok
    ∷ size 131072
    ∷ ok
    ∷ refused
    ∷ refused
    ∷ size 16384
    ∷ ok
    ∷ size 131072
    ∷ ok
    ∷ []

main_unset :
    (final (buffers 212992 212992) (at_start 16384 131072) (run (main 0x7fffffffe000) unset)).shown
    ≡ 16 ∷ 128 ∷ 16 ∷ 128 ∷ []
unfolding main show_size got
main_unset = refl
