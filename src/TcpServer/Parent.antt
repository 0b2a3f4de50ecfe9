-- ===== src/TcpServer/Parent.antt =====
-- socket/exmaple/TCP/server.c: the process that accepts.
use learn_c_linux.Prelude.{ℕ, zero, suc, ◌≡◌, ◌≢◌, refl, true, List, arith}
use learn_c_linux.Prelude.Int.{ℤ, pos}
use learn_c_linux.Sys.{Answer, run, obeys, honest}
use learn_c_linux.Sys.Rule.{Safe, Safe-on_sign, Safe-on_zero, Safe-obeys}
use learn_c_linux.Sockets.{
  Text, Net, put, listening, connected, fresh_net, sockets_of_parent, parent_answer,
}
use learn_c_linux.Sockets.Setup.Laws.{listening_socket-Safe}
use learn_c_linux.TcpServer.{serve, main}

abbrev Anything : Net → ℤ → Type 0
Anything _ _ = Unit

serve-Safe :
    (strlen : Text → ℕ) (m n ss : ℕ) (net : Net)
    → net ss ≡ listening
    → Safe sockets_of_parent net (serve strlen m n (pos ss)) Anything
unfolding serve
serve-Safe strlen m zero ss net h = tt
serve-Safe strlen m (suc n) ss net h = (
  rw h refl,
  λ cs fair.
      Safe-on_sign sockets_of_parent (put net cs.res connected) cs.res _ _ Anything
        (λ k e. serve-Safe strlen m n ss (put net cs.res connected) (rw e h))
        (λ k e.
          let apart : ss ≢ k = ground (arith, h, rw e at fair) in
          let still : put net (pos k) connected ss ≡ listening = ground (arith, apart, h) in
          (
            refl,
            λ pid parent.
                Safe-on_zero sockets_of_parent (put net cs.res connected) pid.res _ _ Anything
                  (λ e'. absurd (ground (arith, parent, e')))
                  (λ _. (
                    rw e (ground arith),
                    λ a _. serve-Safe strlen m n ss _ (rw e (ground (arith, apart, still))),
                  )),
          )),
)

-- Whatever the kernel answers, as long as a descriptor that it returns is not one that is open and each
-- `fork` returns in the parent, the server binds a new socket only, listens on it only when it is bound,
-- accepts on it only while it listens, and closes a client's descriptor only while it is open.
pub main-obeys :
    (strlen : Text → ℕ) (m n : ℕ) (tape : List Answer)
    → honest sockets_of_parent fresh_net (run (main strlen m n) tape) ≡ true
    → obeys sockets_of_parent fresh_net (run (main strlen m n) tape) ≡ true
unfolding main
main-obeys strlen m n tape =
    Safe-obeys sockets_of_parent fresh_net (main strlen m n) Anything tape (
      listening_socket-Safe parent_answer Anything (λ _. tt) fresh_net 5 _
        λ net ss h. serve-Safe strlen m n ss net h)
