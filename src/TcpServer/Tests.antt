-- ===== src/TcpServer/Tests.antt =====
-- Runs of socket/exmaple/TCP/server.c, and its theorems at them.
use learn_c_linux.Prelude.{◌≡◌, ◌∷◌, refl, true, false, some, List, [], ◌++◌, arith, replicate}
use learn_c_linux.Prelude.Int.{pos, negsuc}
use learn_c_linux.Sys.{Answer, returned, refused, run, result, obeys}
use learn_c_linux.Sockets.Setup.{listening_socket}
use learn_c_linux.Sockets.{
  Net, fresh_net, sockets, sockets_of_parent, accept, fork, close, recv, listening, put,
}
use learn_c_linux.TcpServer.{serve, main}
use learn_c_linux.TcpServer.Parent.{main-obeys}
use learn_c_linux.TcpServer.Child.{serve-refused_in_child}

-- The socket 3 is bound and listens, a client comes as 4, and the process 77 is made for it.
abbrev one_client : List Answer
one_client =
    returned (pos 3)
    ∷ returned (pos 0)
    ∷ returned (pos 0)
    ∷ returned (pos 4)
    ∷ returned (pos 77)
    ∷ returned (pos 0)
    ∷ []

main-obeys_example : obeys sockets_of_parent fresh_net (run (main (λ _. 20) 1 2) one_client) ≡ true
unfolding main listening_socket
main-obeys_example = main-obeys (λ _. 20) 1 2 one_client refl

bind_fails : result (main (λ _. 20) 1 2) (returned (pos 3) ∷ refused ∷ []) ≡ some (negsuc 0)
unfolding main listening_socket
bind_fails = refl

abbrev listens : Net
listens = put fresh_net (pos 3) listening

serve-refused_in_child_example :
    let before = returned (pos 4) ∷ returned (pos 0) ∷ returned (pos 0) ∷ returned (pos 0) ∷ [] in
    let t = run (serve (λ _. 20) 1 4 (pos 3)) (before ++ replicate 3 refused) in
    (t
      ≡ (accept (pos 3), returned (pos 4))
        ∷ (fork, returned (pos 0))
        ∷ (close (pos 3), returned (pos 0))
        ∷ (recv (pos 4) 1024, returned (pos 0))
        ∷ replicate 3 (accept (pos 3), refused))
    × (obeys sockets listens t ≡ false)
serve-refused_in_child_example = serve-refused_in_child (λ _. 20) 0 2 3 4 listens refl (omega arith)
