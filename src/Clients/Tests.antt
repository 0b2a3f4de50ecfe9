-- ===== src/Clients/Tests.antt =====
-- Runs of socket/exmaple/TCP/client.c, and its theorem at one.
use learn_c_linux.Prelude.{◌≡◌, List, [], ◌∷◌, arith}
use learn_c_linux.Prelude.Int.{pos}
use learn_c_linux.Sys.{run_on}
use learn_c_linux.Clients.{client_handle}
use learn_c_linux.Clients.Relay.{Exchange, talk, talk_of, written, client_handle-relays}

abbrev twice : List Exchange
twice =
    record { typed = (104, 105 ∷ []); answer = (111, 107 ∷ []) }
    ∷ record { typed = (97, []); answer = (98, 99 ∷ 100 ∷ []) }
    ∷ []

client_handle-relays_example :
    let trace = run_on talk (talk_of twice) (client_handle 2 (pos 3)) in
    (written 3 trace ≡ (104 ∷ 105 ∷ [], pos 2) ∷ (97 ∷ [], pos 1) ∷ [])
    × (written 1 trace ≡ (111 ∷ 107 ∷ [], pos 2) ∷ (98 ∷ 99 ∷ 100 ∷ [], pos 3) ∷ [])
client_handle-relays_example = client_handle-relays 2 twice (omega arith) (omega arith)
