-- ===== src/Chat/Tests.antt =====
-- A run of practise/chat/server.c.
use learn_c_linux.Prelude.{◌≡◌, refl, some, [], ◌∷◌}
use learn_c_linux.Prelude.Int.{pos}
use learn_c_linux.Chat.{Clients, push_fd}

-- One client, in an array with room for two, a 0 and what the memory happens to hold.
abbrev one_client : Clients
one_client = record { client_fds = 4 ∷ 0 ∷ 9 ∷ []; count = 1 }

push_run : push_fd 5 3 one_client ≡ some (pos 0, record { client_fds = 4 ∷ 5 ∷ 0 ∷ []; count = 2 })
unfolding push_fd
push_run = refl
