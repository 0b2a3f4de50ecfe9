-- ===== src/Clients/Ends.antt =====
-- socket/io_model/client.c and practise/chat/client.c: what their threads do when the server has closed.
use learn_c_linux.Prelude.{ℕ, suc, ◌≡◌, refl, some, List, [], ◌∷◌, ◌++◌, length}
use learn_c_linux.Prelude.Int.{ℤ, pos}
use learn_c_linux.Sys.{Answer, returned, result, next_call}
use learn_c_linux.Sockets.{recv}
use learn_c_linux.Clients.IoModel
use learn_c_linux.Clients.Chat

-- The answers to the reads of some messages, none of them empty: the first byte and the rest of each.
abbrev pub messages : List (ℕ × List ℕ) → List Answer
messages [] = []
messages ((b, bytes) ∷ ms) =
    record { res = pos (length (b ∷ bytes)); bytes = b ∷ bytes } ∷ messages ms

-- After any messages, the end of the data ends the one client with 0, while the other one reads again.
pub get_server_client-exits :
    (s : ℤ) (ms : List (ℕ × List ℕ))
    → (result
          (IoModel.get_server_client (suc (length ms)) s)
          (messages ms ++ (returned (pos 0) ∷ []))
        ≡ some (pos 0))
      × (next_call
            (Chat.get_server_client (suc (suc (length ms))) s)
            (messages ms ++ (returned (pos 0) ∷ []))
          ≡ some (recv s 1024))
unfolding IoModel.get_server_client Chat.get_server_client
get_server_client-exits s [] = (refl, refl)
get_server_client-exits s ((b, bytes) ∷ ms) = get_server_client-exits s ms
