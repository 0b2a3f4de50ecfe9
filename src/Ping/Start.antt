-- ===== src/Ping/Start.antt =====
-- socket/socket_raw/ping.c: `main`, which starts the two threads.
use learn_c_linux.Prelude.{
  ℕ, zero, suc, ◌+◌, ◌≡◌, refl, Bool, true, false, ◌&&◌, ◌==◌, ltb, if◌then◌else◌, List, arith,
}
use learn_c_linux.Prelude.Int.{ℤ, pos, negsuc}
use learn_c_linux.Sys.{
  Answer, Prog, Protocol, done, call, ignore, on_sign, on_zero, run, obeys, honest,
}
use learn_c_linux.Sys.Rule.{Safe, Safe-if, Safe-on_sign, Safe-on_zero, Safe-obeys}

-- The threads of `icmp_send` and of `icmp_recv`.
data Thread : Type 0 where
  sender : Thread
  receiver : Thread

-- A pointer that is returned is 0 where it is null. `statistics` is the call of `icmp_statistics`.
data PingCall : Type 0 where
  getprotobyname : PingCall
  socket : PingCall
  setsockopt : ℤ → PingCall
  inet_addr : PingCall
  gethostbyname : PingCall
  pthread_create : Thread → PingCall
  pthread_join : Thread → PingCall
  close : ℤ → PingCall
  statistics : PingCall

-- From the threads on.
unfoldable start : ℤ → Prog PingCall
start rawsock = call (pthread_create sender) λ err. on_sign err.res (done (negsuc 0)) λ _.
    call (pthread_create receiver) λ err'. on_sign err'.res (done (negsuc 0)) λ _.
      ignore (pthread_join sender)
        (ignore (pthread_join receiver) (ignore (close rawsock) (ignore statistics (done (pos 0)))))

-- `is_none` is the comparison with `INADDR_NONE`; the handler of the signal is left out.
unfoldable main : (ℤ → Bool) → ℕ → Prog PingCall
unfolding start
main is_none argc =
    if ltb argc 2
    then done (negsuc 0)
    else (call getprotobyname λ protocol. on_zero protocol.res (done (negsuc 0)) (
        call socket λ rawsock. on_sign rawsock.res (done (negsuc 0)) λ _.
          ignore (setsockopt rawsock.res) (
            call inet_addr λ inaddr.
              if is_none inaddr.res
              then (call gethostbyname
                  λ host. on_zero host.res (done (negsuc 0)) (start rawsock.res))
              else start rawsock.res)))

-- The socket, and how many threads were made and have not been joined.
record Started : Type 0 where
  rawsock : ℤ
  running : ℕ

abbrev same_ℤ : ℤ → ℤ → Bool
same_ℤ (pos a) (pos b) = a == b
same_ℤ _ _ = false

abbrev allows_call : Started → PingCall → Bool
allows_call s (setsockopt fd) = same_ℤ fd s.rawsock
allows_call s (pthread_create t) = same_ℤ s.rawsock s.rawsock
allows_call s (pthread_join t) = ltb 0 s.running
allows_call s (close fd) = same_ℤ fd s.rawsock && (s.running == 0)
allows_call s statistics = s.running == 0
allows_call s _ = true

abbrev made : ℤ → ℕ → ℕ
made (pos n) running = running + 1
made (negsuc n) running = running

abbrev joined : ℕ → ℕ
joined zero = zero
joined (suc n) = n

abbrev after_call : Started → PingCall → Answer → Started
after_call s socket a = record s { rawsock = a.res }
after_call s (pthread_create t) a = record s { running = made a.res s.running }
after_call s (pthread_join t) a = record s { running = joined s.running }
after_call s _ a = s

-- Threads are made for an open socket only; only what runs is joined; and the socket is closed, and the statistics
-- are printed, when no thread runs.
abbrev threads : Protocol PingCall Started
threads = record { allows = allows_call; after = after_call; is_honest = λ _ _ _. true }

abbrev Anything : Started → ℤ → Type 0
Anything _ _ = Unit

same : (fd : ℕ) → (fd == fd) ≡ true
same fd = ground arith

start-Safe :
    (fd : ℕ) → Safe threads (record { rawsock = pos fd; running = 0 }) (start (pos fd)) Anything
unfolding start
start-Safe fd = (
  same fd,
  λ a _.
      Safe-on_sign threads _ a.res _ _ Anything (λ _ _. tt)
        λ k e. rw e (
          same fd,
          λ b _.
              Safe-on_sign threads _ b.res _ _ Anything (λ _ _. tt)
                λ k' e'.
                  rw e' (refl, λ _ _. (refl, λ _ _. (rw (same fd) refl, λ _ _. (refl, λ _ _. tt)))),
        ),
)

main-Safe :
    (is_none : ℤ → Bool) (argc : ℕ)
    → Safe threads (record { rawsock = negsuc 0; running = 0 }) (main is_none argc) Anything
unfolding main
main-Safe is_none argc =
    Safe-if threads _ (ltb argc 2) _ _ Anything (λ _. tt)
      (λ _. (
        refl,
        λ p _.
            Safe-on_zero threads _ p.res _ _ Anything (λ _. tt)
              λ _. (
                refl,
                λ sock _.
                    Safe-on_sign threads _ sock.res _ _ Anything (λ _ _. tt)
                      λ fd e. rw e (
                        same fd,
                        λ _ _. (
                          refl,
                          λ inaddr _.
                              Safe-if threads _ (is_none inaddr.res) _ _ Anything
                                (λ _. (
                                  refl,
                                  λ host _.
                                      Safe-on_zero threads _ host.res _ _ Anything (λ _. tt)
                                        λ _. start-Safe fd,
                                ))
                                (λ _. start-Safe fd),
                        ),
                      ),
              ),
      ))

-- Whatever is answered, `main` keeps to this.
main-obeys_threads :
    (is_none : ℤ → Bool) (argc : ℕ) (tape : List Answer)
    → honest threads (record { rawsock = negsuc 0; running = 0 }) (run (main is_none argc) tape)
      ≡ true
    → obeys threads (record { rawsock = negsuc 0; running = 0 }) (run (main is_none argc) tape)
      ≡ true
main-obeys_threads is_none argc tape =
    Safe-obeys threads (record { rawsock = negsuc 0; running = 0 }) (main is_none argc) Anything
      tape (main-Safe is_none argc)
