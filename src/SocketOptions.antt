-- ===== src/SocketOptions.antt =====
-- socket/socket_opt/example.c: a server that sets options of its socket and waits with epoll. What it prints,
-- and its handlers of signals, which set a variable that nothing reads, are left out.
pub mod Reuse
mod Tests
use learn_c_linux.Prelude.{ℕ, zero, suc, ◌+◌, Bool, true, false, ◌&&◌, ◌==◌, ltb, List, [], ◌∷◌}
use learn_c_linux.Prelude.Int.{ℤ, pos, negsuc}
use learn_c_linux.Sys.{Answer, Prog, done, exit, cut, call, ignore, on_sign, on_minus_one, ◌>>◌}
use learn_c_linux.Sockets.{
  SocketCall, socket, setsockopt, bind, listen, accept, set_nonblock, epoll_create, epoll_add,
  epoll_wait,
}

abbrev max_client : ℕ
max_client = 10

unfoldable pub addfd : ℤ → ℤ → Bool → Prog SocketCall → Prog SocketCall
addfd epollfd fd enable_et rest =
    ignore (epoll_add epollfd fd enable_et) (ignore (set_nonblock fd) rest)

-- The body of `server_handle` is empty.
unfoldable pub server_handle : ℤ → Prog SocketCall
server_handle cs = done (pos 0)

unfoldable pub handle_events : ℤ → ℕ → ℤ → List ℕ → ℕ → (ℤ → ℕ → Prog SocketCall) → Prog SocketCall
unfolding addfd server_handle
handle_events epoll_fd ss cs [] cur_fd next = next cs cur_fd
handle_events epoll_fd ss cs (fd ∷ fds) cur_fd next = elim ((fd == ss) && ltb cur_fd max_client) [
  | true ↦ call (accept (pos ss)) λ new.
      on_sign new.res (handle_events epoll_fd ss new.res fds cur_fd next)
        λ _. addfd epoll_fd new.res false (handle_events epoll_fd ss new.res fds (cur_fd + 1) next)
  | false ↦ server_handle cs >> handle_events epoll_fd ss cs fds cur_fd next
]

-- `cs` is the last client, and what the memory held before there is one.
unfoldable pub serve : ℕ → ℤ → ℕ → ℤ → ℕ → Prog SocketCall
unfolding handle_events
serve zero epoll_fd ss cs cur_fd = cut
serve (suc n) epoll_fd ss cs cur_fd = call (epoll_wait epoll_fd cur_fd) λ wait_fd.
    on_sign wait_fd.res (done (negsuc 0))
      λ _. handle_events epoll_fd ss cs wait_fd.bytes cur_fd (serve n epoll_fd ss)

-- From `listen` on.
unfoldable pub listen_and_serve : ℕ → ℤ → ℕ → Prog SocketCall
unfolding serve addfd
listen_and_serve n cs ss = call (listen (pos ss) 8) λ listened.
    on_sign listened.res (done (negsuc 0)) λ _. call (epoll_create max_client) λ epoll_fd.
      on_sign epoll_fd.res (done (negsuc 0))
        λ _. addfd epoll_fd.res (pos ss) false (serve n epoll_fd.res ss cs 1)

-- The test after the first `setsockopt` is `err != -1`. The sizes of the buffers and the time limit, whose
-- failures are only printed, are three more calls.
unfoldable pub main : ℕ → ℤ → Prog SocketCall
unfolding listen_and_serve
main n cs = call socket λ ss. on_sign ss.res (done (negsuc 0)) λ fd.
    call (setsockopt ss.res) λ reuse.
      on_minus_one reuse.res
        (call (bind ss.res) λ bound. on_minus_one bound.res (done (negsuc 0)) (
          ignore (setsockopt ss.res)
            (ignore (setsockopt ss.res) (ignore (setsockopt ss.res) (listen_and_serve n cs fd)))))
        (done (negsuc 0))
