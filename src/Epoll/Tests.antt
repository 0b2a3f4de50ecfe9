-- ===== src/Epoll/Tests.antt =====
-- Runs of socket/io_model/epoll.c, and its theorems at concrete inputs.
use learn_c_linux.Prelude.{
  ℕ, ◌<◌, ◌≡◌, ◌⊎◌, refl, true, not, some, List, [], ◌∷◌, ◌++◌, length, replicate,
}
use learn_c_linux.Prelude.Int.{pos}
use learn_c_linux.Sys.{Answer, returned, refused, run, next_call, obeys}
use learn_c_linux.Sockets.Setup.{listening_socket}
use learn_c_linux.Sockets.{Net, fresh_net, put, connected, sockets, epoll_wait}
use learn_c_linux.Sockets.Limits.{limits}
use learn_c_linux.Epoll.{is_bye, server_handle, main}
use learn_c_linux.Epoll.Limits.{main-obeys-limits}
use learn_c_linux.Epoll.Ends.{server_handle-obeys}

-- Socket 3, epoll 4, a client that comes as 5.
abbrev one_client : List Answer
one_client =
    returned (pos 3)
    ∷ returned (pos 0)
    ∷ returned (pos 0)
    ∷ returned (pos 4)
    ∷ returned (pos 0)
    ∷ returned (pos 0)
    ∷ record { res = pos 1; bytes = 3 ∷ [] }
    ∷ returned (pos 5)
    ∷ returned (pos 0)
    ∷ returned (pos 0)
    ∷ []

waits_for_two : next_call (main 2) one_client ≡ some (epoll_wait (pos 4) 2)
unfolding main listening_socket
waits_for_two = refl

main-obeys-limits_example : obeys (limits 1024 800 1024) tt (run (main 2) one_client) ≡ true
main-obeys-limits_example = main-obeys-limits 2 one_client

abbrev with_client : Net
with_client = put fresh_net (pos 5) connected

-- A message of four bytes, in a buffer that held zeros, and the single byte 'b' over an old "bye".
abbrev bye : List ℕ
bye = b'b' ∷ b'y' ∷ b'e' ∷ 10 ∷ []

abbrev zeros : List ℕ
zeros = replicate 796 0

server_handle-obeys_example :
    (obeys sockets with_client (
        run
          (server_handle (pos 5))
          (record { res = pos 4; bytes = bye ++ zeros } ∷ returned (pos 0) ∷ refused ∷ []))
      ≡ not (is_bye (bye ++ zeros)))
    × ((length bye < 3) ⊎ (is_bye (bye ++ zeros) ≡ is_bye bye))
server_handle-obeys_example =
    server_handle-obeys 5 3 bye zeros (returned (pos 0)) refused with_client refl refl refl
