-- ===== src/SelectServer/Tests.antt =====
-- Runs of socket/io_model/select.c, and its theorem at a concrete input.
use learn_c_linux.Prelude.{◌≡◌, refl, true, false, some, [], ◌∷◌, Yields, ◌==◌}
use learn_c_linux.Prelude.Int.{pos, negsuc}
use learn_c_linux.Sys.{refused, cut, run}
use learn_c_linux.Sockets.{socket, bind}
use learn_c_linux.SelectServer.SetUp.{set_up}
use learn_c_linux.SelectServer.{Server, serve, turn, reported, quiet, passes, initial}
use learn_c_linux.SelectServer.Turn.{IsServer, passes-initial-IsServer}

-- Two clients, at the places 0 and 1.
abbrev two_clients : Server
two_clients = record {
  fds = 4 ∷ 5 ∷ 0 ∷ 0 ∷ 0 ∷ 0 ∷ 0 ∷ 0 ∷ 0 ∷ 0 ∷ [];
  connections = 2;
  closed = [];
  sent = [];
}

-- After the first of them has left, with the one that stays counted.
abbrev with_hole : Server
with_hole = record {
  fds = 0 ∷ 5 ∷ 0 ∷ 0 ∷ 0 ∷ 0 ∷ 0 ∷ 0 ∷ 0 ∷ 0 ∷ [];
  connections = 1;
  closed = 4 ∷ [];
  sent = [];
}

-- Client 4 hangs up in the turn in which 6 connects: the descriptor 5 is lost.
lost_client :
    turn (λ fd. fd == 4) (λ _. false) (λ _. pos 0) (some (pos 6)) two_clients
    ≡ some (record with_hole { fds = 0 ∷ 6 ∷ 0 ∷ 0 ∷ 0 ∷ 0 ∷ 0 ∷ 0 ∷ 0 ∷ 0 ∷ []; connections = 2 })
unfolding turn
lost_client = refl

-- A first client connects and sends something, and a second one connects; then nothing happens.
two_connect :
    passes
      (reported (λ _. false) (λ _. false) (λ _. pos 0) (some (pos 4))
        ∷ reported (λ fd. fd == 4) (λ fd. fd == 4) (λ _. pos 7) (some (pos 5))
        ∷ quiet
        ∷ [])
      initial
    ≡ some (record two_clients { sent = (4, 4) ∷ (5, 4) ∷ [] })
unfolding passes turn serve
two_connect = refl

passes-initial-IsServer_example :
    Yields IsServer
      (passes (reported (λ _. true) (λ _. true) (λ _. pos 7) (some (pos 6)) ∷ quiet ∷ []) initial)
passes-initial-IsServer_example =
    passes-initial-IsServer
      (reported (λ _. true) (λ _. true) (λ _. pos 7) (some (pos 6)) ∷ quiet ∷ [])

-- A socket that could not be had is bound all the same.
no_socket :
    run (set_up (λ _. cut)) (refused ∷ refused ∷ [])
    ≡ (socket, refused) ∷ (bind (negsuc 0), refused) ∷ []
unfolding set_up
no_socket = refl
