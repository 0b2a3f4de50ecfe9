-- ===== src/Epoll/Limits.antt =====
-- socket/io_model/epoll.c: the sizes that the kernel is given.
use learn_c_linux.Prelude.{
  ℕ, zero, suc, ◌+◌, ◌≤◌, ◌<◌, ◌≡◌, refl, true, ◌&&◌, ◌==◌, ltb, Bool-cases, inl, inr, List, [],
  ◌∷◌, arith,
}
use learn_c_linux.Prelude.Int.{ℤ, pos}
use learn_c_linux.Sys.{Answer, Prog, Protocol, run, obeys}
use learn_c_linux.Sys.Rule.{
  Safe, Safe-bind, Safe-mono, Safe-on_sign, Safe-on_positive, Safe-if, Safe-obeys,
}
use learn_c_linux.Sockets.{SocketCall}
use learn_c_linux.Sockets.Limits.{limits}
use learn_c_linux.Sockets.Setup.Sizes.{honest-limits, listening_socket-fits}
use learn_c_linux.Epoll.{
  max_events, addfd, is_bye, reply, server_handle, handle_events, serve, main,
}

abbrev p : Protocol SocketCall (Unit {0})
p = limits 1024 800 1024

abbrev Anything : Unit {0} → ℤ → Type 0
Anything _ _ = Unit

server_handle-Safe : (cs : ℤ) → Safe p tt (server_handle cs) Anything
unfolding server_handle reply
server_handle-Safe cs = (
  refl,
  λ size _.
      Safe-on_positive p tt size.res _ _ Anything
        (λ n _.
          Safe-if p tt (is_bye size.bytes) _ _ Anything (λ _. (refl, λ _ _. (refl, λ _ _. tt)))
            (λ _. (refl, λ _ _. tt)))
        (refl, λ _ _. tt),
)

handle_events-Safe :
    (epollfd : ℤ) (ss : ℕ) (fds : List ℕ) (cur_fd : ℕ) (next : ℕ → Prog SocketCall)
    → 1 ≤ cur_fd
    → cur_fd ≤ max_events
    → ((n : ℕ) → 1 ≤ n → n ≤ max_events → Safe p tt (next n) Anything)
    → Safe p tt (handle_events epollfd ss fds cur_fd next) Anything
unfolding handle_events addfd
handle_events-Safe epollfd ss [] cur_fd next one most h = h cur_fd one most
handle_events-Safe epollfd ss (fd ∷ fds) cur_fd next one most h =
    elim (Bool-cases ((fd == ss) && ltb cur_fd max_events)) [
      | inl new ↦
          let room : cur_fd < max_events = ground arith in
          rw (handle_events, new)
            (
              refl,
              λ cs _.
                  Safe-on_sign p tt cs.res _ _ Anything (λ _ _. tt)
                    λ _ _. (
                      refl,
                      λ _ _. (
                        refl,
                        λ _ _.
                            handle_events-Safe epollfd ss fds (cur_fd + 1) next (omega arith)
                              (omega arith) h,
                      ),
                    ),
            )
      | inr old ↦
          rw (handle_events, old)
            (Safe-bind p tt (server_handle (pos fd)) _ Anything (
              Safe-mono p tt (server_handle (pos fd)) (server_handle-Safe (pos fd))
                λ _ _ _. handle_events-Safe epollfd ss fds cur_fd next one most h))
    ]

serve-Safe :
    (n : ℕ) (epollfd : ℤ) (ss cur_fd : ℕ)
    → 1 ≤ cur_fd
    → cur_fd ≤ max_events
    → Safe p tt (serve n epollfd ss cur_fd) Anything
unfolding serve
serve-Safe zero epollfd ss cur_fd one most = tt
serve-Safe (suc n) epollfd ss cur_fd one most = (
  ground arith,
  λ wait_fd _.
      Safe-on_sign p tt wait_fd.res _ _ Anything (λ _ _. tt)
        λ _ _.
          handle_events-Safe epollfd ss wait_fd.bytes cur_fd (serve n epollfd ss) one most
            (λ k. serve-Safe n epollfd ss k),
)

-- Whatever the kernel answers, for as many turns as it goes: `epoll_wait` is given room for at least one
-- event and for no more than `events` has, `recv` for no more bytes than `readbuf` has, and no message
-- is longer than `writebuf`.
pub main-obeys-limits :
    (n : ℕ) (tape : List Answer) → obeys (limits 1024 800 1024) tt (run (main n) tape) ≡ true
unfolding main addfd
main-obeys-limits n tape =
    Safe-obeys p tt (main n) Anything tape
      (listening_socket-fits 1024 800 1024 Anything (λ _. tt) 10 _
        λ ss. (
          refl,
          λ ep _.
              Safe-on_sign p tt ep.res _ _ Anything (λ _ _. tt)
                λ _ _. (
                  refl,
                  λ _ _. (refl, λ _ _. serve-Safe n ep.res ss 1 (omega arith) (omega arith)),
                ),
        ))
      (honest-limits 1024 800 1024 (run (main n) tape))
