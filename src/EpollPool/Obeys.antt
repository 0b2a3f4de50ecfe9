-- ===== src/EpollPool/Obeys.antt =====
-- practise/epoll_thread_model.c: the calls of the thread that accepts.
use learn_c_linux.Prelude.{
  ℕ, zero, suc, ◌+◌, ◌≡◌, ◌≢◌, refl, true, ◌&&◌, ◌==◌, ltb, Bool-cases, inl, inr, List, [], ◌∷◌,
  arith,
}
use learn_c_linux.Prelude.Int.{ℤ, pos}
use learn_c_linux.Sys.{Answer, Prog, run, obeys, honest}
use learn_c_linux.Sys.Rule.{Safe, Safe-on_sign, Safe-obeys}
use learn_c_linux.Sockets.{
  SocketCall, Net, put, fresh_net, connected, listening, polling, sockets, honest_answer,
}
use learn_c_linux.Sockets.Setup.Laws.{listening_socket-Safe, put_self}
use learn_c_linux.EpollPool.{max_client, add_fd_epoll, handle_events, serve, main}

abbrev Anything : Net → ℤ → Type 0
Anything _ _ = Unit

-- The socket listens, and there is something to wait with.
record Ready (ss ep : ℕ) (net : Net) : Type 0 where
  listens : net ss ≡ listening
  polls : net ep ≡ polling

-- A descriptor that was not open is another one.
Ready-put :
    (ss ep : ℕ) (net : Net) (k : ℕ)
    → Ready ss ep net
    → ss ≢ k
    → ep ≢ k
    → Ready ss ep (put net (pos k) connected)
Ready-put ss ep net k h apart apart' = record {
  listens = ground (arith, h.listens, apart);
  polls = ground (arith, h.polls, apart');
}

-- One step after `accept`, where the loop goes on safely from any state that is ready.
handle_events-Safe :
    (event_at : ℕ → ℕ) (ep ss i : ℕ) (fds : List ℕ) (cur_fd : ℕ) (next : ℕ → Prog SocketCall)
    (net : Net)
    → Ready ss ep net
    → ((k : ℕ) (net' : Net) → Ready ss ep net' → Safe sockets net' (next k) Anything)
    → Safe sockets net (handle_events event_at (pos ep) ss i fds cur_fd next) Anything
unfolding handle_events add_fd_epoll
handle_events-Safe event_at ep ss i [] cur_fd next net h safe = safe cur_fd net h
handle_events-Safe event_at ep ss i (fd ∷ fds) cur_fd next net h safe =
    elim (Bool-cases ((fd == ss) && ltb cur_fd max_client)) [
      | inl new ↦
          rw (handle_events, new)
            (
              rw h.listens refl,
              λ cs fair.
                  Safe-on_sign sockets (put net cs.res connected) cs.res _ _ Anything
                    (λ k e.
                      handle_events-Safe event_at ep ss (i + 1) fds cur_fd next
                        (put net cs.res connected) (rw e h) safe)
                    λ k e.
                      let apart : ss ≢ k = ground (arith, h.listens, rw e at fair) in
                      let apart' : ep ≢ k = ground (arith, h.polls, rw e at fair) in
                      let still = Ready-put ss ep net k h apart apart' in
                      rw e (
                        rw (still.polls, put_self net k connected) refl,
                        λ a _. (
                          rw (put_self net k connected) refl,
                          λ b _.
                              handle_events-Safe event_at ep ss (i + 1) fds (cur_fd + 1) next _
                                still safe,
                        ),
                      ),
            )
      | inr old ↦
          rw (handle_events, old)
            (refl, λ a _. handle_events-Safe event_at ep ss (i + 1) fds cur_fd next net h safe)
    ]

serve-Safe :
    (event_at : ℕ → ℕ) (n ep ss cur_fd : ℕ) (net : Net)
    → Ready ss ep net
    → Safe sockets net (serve event_at n (pos ep) ss cur_fd) Anything
unfolding serve
serve-Safe event_at zero ep ss cur_fd net h = tt
serve-Safe event_at (suc n) ep ss cur_fd net h = (
  rw h.polls refl,
  λ wait_fds _.
      Safe-on_sign sockets net wait_fds.res _ _ Anything (λ _ _. tt)
        λ _ _.
          handle_events-Safe event_at ep ss 0 wait_fds.bytes cur_fd (serve event_at n (pos ep) ss)
            net h (λ k net'. serve-Safe event_at n ep ss k net'),
)

-- For as many turns as it goes, and whatever the kernel answers, as long as a descriptor that it returns is not
-- one that is open: the server binds a new socket only, accepts only on a socket that listens, waits only with
-- an epoll instance, and puts only open descriptors under watch.
pub main-obeys-sockets :
    (event_at : ℕ → ℕ) (n : ℕ) (tape : List Answer)
    → honest sockets fresh_net (run (main event_at n) tape) ≡ true
    → obeys sockets fresh_net (run (main event_at n) tape) ≡ true
unfolding main add_fd_epoll
main-obeys-sockets event_at n tape = Safe-obeys sockets fresh_net (main event_at n) Anything tape (
    listening_socket-Safe honest_answer Anything (λ _. tt) fresh_net 10 _
      λ net ss listens. (
        refl,
        λ ep fair.
            Safe-on_sign sockets (put net ep.res polling) ep.res _ _ Anything (λ _ _. tt)
              λ k e.
                let apart : ss ≢ k = ground (arith, listens, rw e at fair) in
                let still : put net (pos k) polling ss ≡ listening =
                  ground (arith, listens, apart) in
                rw e (
                  rw (still, put_self net k polling) refl,
                  λ a _. (
                    rw still refl,
                    λ b _.
                        serve-Safe event_at n k ss 1 (put net (pos k) polling)
                          (record { listens = still; polls = put_self net k polling }),
                  ),
                ),
      ))
