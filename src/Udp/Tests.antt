-- ===== src/Udp/Tests.antt =====
-- Runs of the programs that send datagrams, and their theorems at concrete inputs.
use learn_c_linux.Prelude.{
  ℕ, ◌≤◌, ◌≡◌, ◌⊎◌, refl, true, false, some, List, [], ◌∷◌, map, replicate, arith,
}
use learn_c_linux.Prelude.Int.{pos, negsuc}
use learn_c_linux.Sys.{Answer, returned, refused, run, run_on, result, obeys}
use learn_c_linux.Sockets.{sockets, fresh_net, put, bound, sendto, recvfrom, fixed, socket}
use learn_c_linux.Udp.Echo.{udpserver_echo}
use learn_c_linux.Udp.Echo.Laws.{sent, network, echo, udpserver_echo-echoes}
use learn_c_linux.Udp.Broadcast
use learn_c_linux.Udp.Broadcast.Bound.{sends, main-ends}
use learn_c_linux.Udp.Client

abbrev datagrams : List (List ℕ)
datagrams = (104 ∷ 105 ∷ []) ∷ [] ∷ (7 ∷ []) ∷ []

udpserver_echo-echoes_example :
    (sent (run_on network datagrams (udpserver_echo 3 (pos 3))) ≡ map echo datagrams)
    × (obeys sockets
          (put fresh_net (pos 3) bound)
          (run_on network datagrams (udpserver_echo 3 (pos 3)))
        ≡ true)
    × (obeys sockets
          (put fresh_net (pos 3) bound)
          (run (udpserver_echo 1 (pos 3)) (refused ∷ refused ∷ []))
        ≡ false)
udpserver_echo-echoes_example =
    udpserver_echo-echoes 3 0 0 (put fresh_net (pos 3) bound) datagrams refused refl

-- The kernel answers everything with 3, and no answer begins with "IP_FOUND_ACK".
abbrev not_found : List Answer
not_found = replicate 23 (returned (pos 3))

main-ends_example :
    ((result (Broadcast.main []) not_found ≡ some (pos 0))
      ⊎ (result (Broadcast.main []) not_found ≡ some (negsuc 0)))
    × (sends (run (Broadcast.main []) not_found) ≤ 10)
main-ends_example = main-ends [] not_found (omega arith)

-- A client for whom no socket is made goes on all the same.
no_socket :
    run Client.main (refused ∷ refused ∷ refused ∷ [])
    ≡ (socket, refused)
      ∷ (sendto (negsuc 0) fixed (pos 1024), refused)
      ∷ (recvfrom (negsuc 0) 1024, refused)
      ∷ []
unfolding Client.main
no_socket = refl
