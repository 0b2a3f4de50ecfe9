-- ===== src/TcpServer.antt =====
-- socket/exmaple/TCP/server.c: a server that forks a process for each client.
pub mod Parent
pub mod Child
mod Tests
use learn_c_linux.Prelude.{ℕ, zero, suc, List}
use learn_c_linux.Prelude.Int.{ℤ, pos, negsuc}
use learn_c_linux.Sys.{Answer, Prog, done, cut, call, ignore, on_sign, on_zero, ◌>>◌}
use learn_c_linux.Sockets.Setup.{listening_socket}
use learn_c_linux.Sockets.{SocketCall, Text, report, accept, recv, send, close, fork}

-- `strlen` is the length of a text that `sprintf` has made; the loop is followed for some rounds.
unfoldable pub server_handle : (Text → ℕ) → ℕ → ℤ → Prog SocketCall
server_handle strlen zero c_fd = cut
server_handle strlen (suc n) c_fd = call (recv c_fd 1024) λ size. on_zero size.res (done (pos 0)) (
    ignore (send c_fd (report size.res) (pos (suc (strlen (report size.res)))))
      (server_handle strlen n c_fd))

-- The `while` loop of `main`, followed for `n` rounds, with `m` rounds of each `server_handle`. The child
-- comes back to it when its client is served.
unfoldable pub serve : (Text → ℕ) → ℕ → ℕ → ℤ → Prog SocketCall
unfolding server_handle
serve strlen m zero ss = cut
serve strlen m (suc n) ss = call (accept ss) λ cs. on_sign cs.res (serve strlen m n ss) λ _.
    call fork λ pid.
      on_zero pid.res (ignore (close ss) (server_handle strlen m cs.res >> serve strlen m n ss))
        (ignore (close cs.res) (serve strlen m n ss))

unfoldable pub main : (Text → ℕ) → ℕ → ℕ → Prog SocketCall
unfolding serve listening_socket
main strlen m n = listening_socket 5 λ ss. serve strlen m n (pos ss)
