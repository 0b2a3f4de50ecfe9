-- ===== src/Clients/IoModel.antt =====
-- socket/io_model/client.c: a client with a thread that reads what the server sends.
use learn_c_linux.Prelude.{ℕ, zero, suc}
use learn_c_linux.Prelude.Int.{ℤ, pos, negsuc}
use learn_c_linux.Sys.{
  Prog, done, exit, cut, call, ignore, on_sign, on_minus_one, on_positive, ◌>>◌,
}
use learn_c_linux.Sockets.{SocketCall, raw, socket, connect, recv, send, close, pthread_create}

-- The loop that sends what is typed, followed for some rounds. The terminal is read on 0.
unfoldable pub send_typed : ℕ → ℤ → Prog SocketCall
send_typed zero s_fd = cut
send_typed (suc n) s_fd = call (recv (pos 0) 512) λ size.
    on_positive size.res (λ k. ignore (send s_fd (raw size.bytes) (pos k)) (send_typed n s_fd))
      (send_typed n s_fd)

-- `exit` ends both threads.
unfoldable pub client_handle : ℕ → ℤ → Prog SocketCall
unfolding send_typed
client_handle n s_fd =
    call (pthread_create s_fd) λ res. on_minus_one res.res (exit (negsuc 0)) (send_typed n s_fd)

-- The other thread, which prints what it gets.
unfoldable pub get_server_client : ℕ → ℤ → Prog SocketCall
get_server_client zero ss_fd = cut
get_server_client (suc n) ss_fd =
    call (recv ss_fd 1024)
      λ size. on_positive size.res (λ _. get_server_client n ss_fd) (exit (pos 0))

-- Each branch ends the program.
unfoldable pub sig_handle : ℕ → Prog SocketCall
sig_handle signo = exit (pos 0)

-- The calls of `signal` are left out, and the value of `connect` is not looked at.
unfoldable pub main : ℕ → Prog SocketCall
unfolding client_handle
main n = call socket λ s.
    on_sign s.res (done (negsuc 0))
      λ _. ignore (connect s.res) (client_handle n s.res >> ignore (close s.res) (done (pos 0)))
