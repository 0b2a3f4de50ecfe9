-- ===== src/ThreadServer/Process.antt =====
-- practise/chat/thread_server.c: the calls of `main`, with the slots as `serve_one` changes them.
use learn_c_linux.Prelude.{ℕ, zero, suc, ◌≡◌, ◌≢◌, refl, true, List, Option, none, some, arith}
use learn_c_linux.Prelude.Int.{ℤ, pos}
use learn_c_linux.Sys.{Answer, Prog, cut, call, on_sign, run, obeys, honest}
use learn_c_linux.Sys.Rule.{Safe, Safe-on_sign, Safe-obeys}
use learn_c_linux.Sockets.{
  SocketCall, Net, put, fresh_net, connected, listening, sockets, honest_answer, accept,
  pthread_create,
}
use learn_c_linux.Sockets.Setup.{listening_socket}
use learn_c_linux.Sockets.Setup.Laws.{listening_socket-Safe}
use learn_c_linux.ThreadServer.{Slots, initial, put_slot, keep_slot}

-- The loop, followed for some rounds; `cut` also where `cs_fds` would be left. The thread gets the slot.
unfoldable serve_calls : ℕ → ℤ → Slots → Prog SocketCall
serve_calls zero ss s = cut
serve_calls (suc n) ss s = call (accept ss) λ cs. on_sign cs.res (serve_calls n ss s) λ fd.
    elim (put_slot s fd) [
      | none ↦ cut
      | some s' ↦
          call (pthread_create (pos s'.count))
            λ res. elim (keep_slot res.res s') [ none ↦ cut | some s'' ↦ serve_calls n ss s'' ]
    ]

unfoldable main : ℕ → Prog SocketCall
unfolding serve_calls
main n = listening_socket 5 λ ss. serve_calls n (pos ss) initial

abbrev Anything : Net → ℤ → Type 0
Anything _ _ = Unit

-- The loop after a `pthread_create`.
after_create-Safe :
    (n ss : ℕ) (o : Option Slots) (net : Net)
    → ((s : Slots) → Safe sockets net (serve_calls n (pos ss) s) Anything)
    → Safe sockets net (elim o [ none ↦ cut | some s ↦ serve_calls n (pos ss) s ]) Anything
after_create-Safe n ss none net safe = tt
after_create-Safe n ss (some s) net safe = safe s

after_accept-Safe :
    (n ss : ℕ) (o : Option Slots) (net : Net)
    → ((s : Slots) → Safe sockets net (serve_calls n (pos ss) s) Anything)
    → Safe sockets net
        (elim o [
          | none ↦ cut
          | some s' ↦ call (pthread_create (pos s'.count)) λ res. elim (keep_slot res.res s') [
            | none ↦ cut
            | some s'' ↦ serve_calls n (pos ss) s''
          ]
        ])
        Anything
after_accept-Safe n ss none net safe = tt
after_accept-Safe n ss (some s') net safe =
    (refl, λ res _. after_create-Safe n ss (keep_slot res.res s') net safe)

serve_calls-Safe :
    (n ss : ℕ) (s : Slots) (net : Net)
    → net ss ≡ listening
    → Safe sockets net (serve_calls n (pos ss) s) Anything
unfolding serve_calls
serve_calls-Safe zero ss s net h = tt
serve_calls-Safe (suc n) ss s net h = (
  rw h refl,
  λ cs fair.
      Safe-on_sign sockets (put net cs.res connected) cs.res _ _ Anything
        (λ k e. serve_calls-Safe n ss s (put net cs.res connected) (rw e h))
        λ k e.
          let apart : ss ≢ k = ground (arith, h, rw e at fair) in
          let still : put net cs.res connected ss ≡ listening = rw e (ground (arith, apart, h)) in
          after_accept-Safe n ss (put_slot s k) (put net cs.res connected)
            λ s'. serve_calls-Safe n ss s' (put net cs.res connected) still,
)

-- Whatever the kernel answers, as long as a descriptor that it returns is not one that is open: the server binds a
-- new socket only, listens on it only when it is bound, and accepts on it only while it listens.
main-accepts :
    (n : ℕ) (tape : List Answer)
    → honest sockets fresh_net (run (main n) tape) ≡ true
    → obeys sockets fresh_net (run (main n) tape) ≡ true
unfolding main
main-accepts n tape = Safe-obeys sockets fresh_net (main n) Anything tape (
    listening_socket-Safe honest_answer Anything (λ _. tt) fresh_net 5 _
      λ net ss listens. serve_calls-Safe n ss initial net listens)
