-- ===== src/EpollPool.antt =====
-- practise/epoll_thread_model.c: a server that waits with epoll and hands its clients to a pool of threads.
pub mod Events
pub mod Obeys
pub mod Frees
mod Tests
use learn_c_linux.Prelude.{ℕ, zero, suc, ◌+◌, Bool, true, false, ◌&&◌, ◌==◌, ltb, List, [], ◌∷◌}
use learn_c_linux.Prelude.Int.{ℤ, pos, negsuc}
use learn_c_linux.Sys.{Answer, Prog, done, exit, cut, call, ignore, on_sign, on_positive}
use learn_c_linux.Sockets.{
  SocketCall, raw, accept, recv, send, set_nonblock, epoll_create, epoll_add, epoll_wait, add_task,
}
use learn_c_linux.Sockets.Setup.{listening_socket}

abbrev pub max_client : ℕ
max_client = 10

-- The size of the array `events`.
abbrev pub max_event : ℕ
max_event = 1024

-- `add_fd_epoll`, with `set_noblock` as one call.
unfoldable pub add_fd_epoll : ℤ → ℤ → Bool → Prog SocketCall → Prog SocketCall
add_fd_epoll epollfd fd enable_et rest =
    ignore (epoll_add epollfd fd enable_et) (ignore (set_nonblock fd) rest)

-- The task of a worker; `exit` ends its thread, and the value that the function lacks is 0 here. What is sent
-- has the size of `readbuf`, however much of it was received.
unfoldable pub server_handle : ℤ → Prog SocketCall
server_handle cs = call (recv cs 1024) λ size.
    on_positive size.res (λ _. ignore (send cs (raw size.bytes) (pos 1024)) (done (pos 0)))
      (exit (pos 0))

-- The loop over the events from index `i` on, and then the next turn. `event_at i` is the address of
-- `events[i].data.fd`.
unfoldable pub handle_events :
    (ℕ → ℕ) → ℤ → ℕ → ℕ → List ℕ → ℕ → (ℕ → Prog SocketCall) → Prog SocketCall
unfolding add_fd_epoll
handle_events event_at epollfd ss i [] cur_fd next = next cur_fd
handle_events event_at epollfd ss i (fd ∷ fds) cur_fd next =
    elim ((fd == ss) && ltb cur_fd max_client) [
      | true ↦ call (accept (pos ss)) λ cs.
          on_sign cs.res (handle_events event_at epollfd ss (i + 1) fds cur_fd next) λ _.
            add_fd_epoll epollfd cs.res false
              (handle_events event_at epollfd ss (i + 1) fds (cur_fd + 1) next)
      | false ↦
          ignore (add_task (event_at i)) (handle_events event_at epollfd ss (i + 1) fds cur_fd next)
    ]

unfoldable pub serve : (ℕ → ℕ) → ℕ → ℤ → ℕ → ℕ → Prog SocketCall
unfolding handle_events
serve event_at zero epollfd ss cur_fd = cut
serve event_at (suc n) epollfd ss cur_fd = call (epoll_wait epollfd cur_fd) λ wait_fds.
    on_sign wait_fds.res (done (negsuc 0))
      λ _. handle_events event_at epollfd ss 0 wait_fds.bytes cur_fd (serve event_at n epollfd ss)

-- `main`, after `threadpool_create (10, 20, 15)`.
unfoldable pub main : (ℕ → ℕ) → ℕ → Prog SocketCall
unfolding serve add_fd_epoll
main event_at n = listening_socket 10 λ ss. call (epoll_create max_client) λ epollfd.
    on_sign epollfd.res (done (negsuc 0))
      λ _. add_fd_epoll epollfd.res (pos ss) false (serve event_at n epollfd.res ss 1)
