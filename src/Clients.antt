-- ===== src/Clients.antt =====
-- socket/exmaple/TCP/client.c: a client that sends what is typed and prints the answers.
pub mod Relay
pub mod IoModel
pub mod Chat
pub mod Ends
mod Tests
use learn_c_linux.Prelude.{ℕ, zero, suc, List}
use learn_c_linux.Prelude.Int.{ℤ, pos, negsuc}
use learn_c_linux.Sys.{Answer, Prog, done, cut, call, ignore, on_sign, on_positive, ◌>>◌}
use learn_c_linux.Sockets.{SocketCall, raw, socket, connect, recv, send, close}

-- The loop, followed for some rounds. The terminal is read on 0 and written on 1.
unfoldable pub client_handle : ℕ → ℤ → Prog SocketCall
client_handle zero s_fd = cut
client_handle (suc n) s_fd = call (recv (pos 0) 1024) λ size.
    on_positive size.res
      (λ k. ignore (send s_fd (raw size.bytes) (pos k)) (
        call (recv s_fd 1024)
          λ size'. ignore (send (pos 1) (raw size'.bytes) size'.res) (client_handle n s_fd)))
      (client_handle n s_fd)

-- The value of `connect` is not looked at.
unfoldable pub main : ℕ → Prog SocketCall
unfolding client_handle
main n = call socket λ s.
    on_sign s.res (done (negsuc 0))
      λ _. ignore (connect s.res) (client_handle n s.res >> ignore (close s.res) (done (pos 0)))
