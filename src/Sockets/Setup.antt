-- ===== src/Sockets/Setup.antt =====
-- The way in which the servers of the repository get a listening socket: `socket`, `bind` and `listen`, with
-- a return of -1 from `main` where one fails.
pub mod Laws
pub mod Sizes
use learn_c_linux.Prelude.{ℕ}
use learn_c_linux.Prelude.Int.{ℤ, pos, negsuc}
use learn_c_linux.Sys.{Answer, Prog, done, call, on_sign}
use learn_c_linux.Sockets.{SocketCall, socket, bind, listen}

unfoldable pub bound_socket : (ℕ → Prog SocketCall) → Prog SocketCall
bound_socket rest = call socket λ ss.
    on_sign ss.res (done (negsuc 0))
      λ fd. call (bind ss.res) λ err. on_sign err.res (done (negsuc 0)) λ _. rest fd

unfoldable pub listening_socket : ℕ → (ℕ → Prog SocketCall) → Prog SocketCall
unfolding bound_socket
listening_socket backlog rest =
    bound_socket
      λ fd. call (listen (pos fd) backlog) λ err. on_sign err.res (done (negsuc 0)) λ _. rest fd
