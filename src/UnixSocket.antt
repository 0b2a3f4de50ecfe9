-- ===== src/UnixSocket.antt =====
-- socket/UNIX_socket/main.c: a socket that is bound to a path. What it prints is left out.
mod Tests
use learn_c_linux.Prelude.{ℕ}
use learn_c_linux.Prelude.Int.{ℤ, pos, negsuc}
use learn_c_linux.Sys.{Answer, Prog, done, exit, call, ignore, on_sign}
use learn_c_linux.Sockets.{SocketCall, socket, unlink, bind, close}

unfoldable pub display_err : Prog SocketCall
display_err = exit (pos 1)

unfoldable pub main : Prog SocketCall
unfolding display_err
main = call socket λ sock_unix. on_sign sock_unix.res display_err λ _. ignore unlink (
    call (bind sock_unix.res)
      λ err. on_sign err.res display_err λ _. ignore (close sock_unix.res) (done (pos 0)))
