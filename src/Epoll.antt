-- ===== src/Epoll.antt =====
-- socket/io_model/epoll.c: a server that waits for its clients with epoll.
pub mod Limits
pub mod Ends
mod Tests
use learn_c_linux.Prelude.{
  ℕ, zero, suc, ◌+◌, Bool, true, false, ◌&&◌, ◌==◌, ltb, if◌then◌else◌, List, [], ◌∷◌,
}
use learn_c_linux.Prelude.Int.{ℤ, pos, negsuc}
use learn_c_linux.Sys.{Answer, Prog, done, exit, cut, call, ignore, on_sign, on_positive, ◌>>◌}
use learn_c_linux.Sockets.{
  SocketCall, from, accept, recv, send, close, set_nonblock, epoll_create, epoll_add, epoll_wait,
}
use learn_c_linux.Sockets.Setup.{listening_socket}

abbrev pub max_events : ℕ
max_events = 1024

abbrev max_client : ℕ
max_client = 10

-- `addfd`, with `set_no_blocking` as one call.
unfoldable pub addfd : ℤ → ℤ → Bool → Prog SocketCall → Prog SocketCall
addfd epollfd fd enable_et rest =
    ignore (epoll_add epollfd fd enable_et) (ignore (set_nonblock fd) rest)

-- `memcmp("bye", readbuf, 3) == 0`, on the 800 bytes of `readbuf`; a list below 3 is no such buffer.
abbrev pub is_bye : List ℕ → Bool
is_bye (a ∷ b ∷ c ∷ rest) = (a == b'b') && ((b == b'y') && (c == b'e'))
is_bye _ = false

-- Every message is sent with the size of `writebuf`.
unfoldable pub reply : ℤ → List ℕ → Prog SocketCall
reply cs bytes = ignore (send cs (from cs bytes) (pos 1024)) (done (pos 0))

-- The bytes of the answer to `recv` are all that `readbuf` then holds: what was received, and behind it what
-- the memory held, since `readbuf` is not cleared. Both `memcmp` and `sprintf` may read that.
unfoldable pub server_handle : ℤ → Prog SocketCall
unfolding reply
server_handle cs = call (recv cs 800) λ size.
    on_positive size.res
      (λ _.
        if is_bye size.bytes then ignore (close cs) (reply cs size.bytes) else reply cs size.bytes)
      (ignore (close cs) (done (pos 0)))

-- The loop over the events that one `epoll_wait` reports, and then the next turn with the number of
-- descriptors that it leaves. A failed `accept` ends `main`.
unfoldable pub handle_events : ℤ → ℕ → List ℕ → ℕ → (ℕ → Prog SocketCall) → Prog SocketCall
unfolding addfd server_handle
handle_events epollfd ss [] cur_fd next = next cur_fd
handle_events epollfd ss (fd ∷ fds) cur_fd next = elim ((fd == ss) && ltb cur_fd max_events) [
  | true ↦ call (accept (pos ss)) λ cs.
      on_sign cs.res (exit (negsuc 0))
        λ _. addfd epollfd cs.res false (handle_events epollfd ss fds (cur_fd + 1) next)
  | false ↦ server_handle (pos fd) >> handle_events epollfd ss fds cur_fd next
]

-- The `while` loop, followed for some turns.
unfoldable pub serve : ℕ → ℤ → ℕ → ℕ → Prog SocketCall
unfolding handle_events
serve zero epollfd ss cur_fd = cut
serve (suc n) epollfd ss cur_fd = call (epoll_wait epollfd cur_fd) λ wait_fd.
    on_sign wait_fd.res (done (negsuc 0))
      λ _. handle_events epollfd ss wait_fd.bytes cur_fd (serve n epollfd ss)

unfoldable pub main : ℕ → Prog SocketCall
unfolding serve addfd
main n = listening_socket 10 λ ss. call (epoll_create max_client) λ epoll_fd.
    on_sign epoll_fd.res (done (negsuc 0))
      λ _. addfd epoll_fd.res (pos ss) false (serve n epoll_fd.res ss 1)
