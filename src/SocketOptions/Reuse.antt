-- ===== src/SocketOptions/Reuse.antt =====
-- socket/socket_opt/example.c: the test of the first option.
use learn_c_linux.Prelude.{ℕ, ◌≡◌, refl, some, List, [], ◌∷◌}
use learn_c_linux.Prelude.Int.{ℤ, pos, negsuc}
use learn_c_linux.Sys.{Answer, returned, refused, run, result, next_call}
use learn_c_linux.Sockets.{socket, setsockopt, bind}
use learn_c_linux.SocketOptions.{main}

-- When the kernel allows the address to be used again, the program returns -1 at once, whatever else the
-- kernel would answer; only when the kernel refuses the option does the program go on to `bind`.
pub main-ends_with_reuse :
    (n fd k : ℕ) (cs : ℤ) (tape : List Answer)
    → (run (main n cs) (returned (pos fd) ∷ returned (pos k) ∷ tape)
        ≡ (socket, returned (pos fd)) ∷ (setsockopt (pos fd), returned (pos k)) ∷ [])
      × (result (main n cs) (returned (pos fd) ∷ returned (pos k) ∷ tape) ≡ some (negsuc 0))
      × (next_call (main n cs) (returned (pos fd) ∷ refused ∷ []) ≡ some (bind (pos fd)))
unfolding main
main-ends_with_reuse n fd k cs tape = (refl, refl, refl)
