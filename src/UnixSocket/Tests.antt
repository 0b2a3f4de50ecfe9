-- ===== src/UnixSocket/Tests.antt =====
-- Runs of socket/UNIX_socket/main.c.
use learn_c_linux.Prelude.{◌≡◌, refl, some, [], ◌∷◌}
use learn_c_linux.Prelude.Int.{pos}
use learn_c_linux.Sys.{returned, refused, run, result}
use learn_c_linux.Sockets.{socket, unlink, bind, close}
use learn_c_linux.UnixSocket.{main}

binds :
    run main (returned (pos 3) ∷ refused ∷ returned (pos 0) ∷ returned (pos 0) ∷ [])
    ≡ (socket, returned (pos 3))
      ∷ (unlink, refused)
      ∷ (bind (pos 3), returned (pos 0))
      ∷ (close (pos 3), returned (pos 0))
      ∷ []
unfolding main
binds = refl

is_taken : result main (returned (pos 3) ∷ refused ∷ refused ∷ []) ≡ some (pos 1)
unfolding main
is_taken = refl
