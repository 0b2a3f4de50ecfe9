-- ===== src/SocketOptions/Tests.antt =====
-- A run of socket/socket_opt/example.c.
use learn_c_linux.Prelude.{◌≡◌, refl, some, [], ◌∷◌}
use learn_c_linux.Prelude.Int.{pos}
use learn_c_linux.Sys.{returned, refused, next_call}
use learn_c_linux.Sockets.{listen}
use learn_c_linux.SocketOptions.{main}

-- Without the first option the others are set, and the socket listens.
reaches_listen :
    next_call
      (main 1 (pos 0))
      (returned (pos 3) ∷ refused ∷ returned (pos 0) ∷ refused ∷ refused ∷ refused ∷ [])
    ≡ some (listen (pos 3) 8)
unfolding main
reaches_listen = refl
