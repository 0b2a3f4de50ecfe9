-- ===== src/Sockets/Setup/Laws.antt =====
-- What holds of the net once the socket is set up.
use learn_c_linux.Prelude.{ℕ, ◌≡◌, refl, Bool, arith}
use learn_c_linux.Prelude.Int.{ℤ, pos, negsuc}
use learn_c_linux.Sys.{Answer, Prog, Protocol}
use learn_c_linux.Sys.Rule.{Safe, Safe-on_sign}
use learn_c_linux.Sockets.{
  SocketCall, Net, Status, created, bound, listening, put, allows_call, after_call,
}
use learn_c_linux.Sockets.Setup.{bound_socket, listening_socket}

pub put_self : (net : Net) (k : ℕ) (s : Status) → put net (pos k) s k ≡ s
put_self net k s = ground arith

-- For any notion of honesty.
module _ (is_honest : Net → SocketCall → Answer → Bool) (Q : Net → ℤ → Type 0)
    (failed : (net : Net) → Q net (negsuc 0)) where
  abbrev p : Protocol SocketCall Net
  p = record { allows = allows_call; after = after_call; is_honest = is_honest }

  pub bound_socket-Safe :
      (net : Net) (rest : ℕ → Prog SocketCall)
      → ((net' : Net) (fd : ℕ) → net' fd ≡ bound → Safe p net' (rest fd) Q)
      → Safe p net (bound_socket rest) Q
  unfolding bound_socket
  bound_socket-Safe net rest next = (
    refl,
    λ ss fair.
        Safe-on_sign p (put net ss.res created) ss.res _ _ Q (λ k e. failed _)
          λ fd e. (
            rw e (rw (put_self net fd created) refl),
            λ err _.
                Safe-on_sign p _ err.res _ _ Q (λ k e'. failed _)
                  λ k e'. next _ fd (rw (e, e') (put_self (put net (pos fd) created) fd bound)),
          ),
  )

  pub listening_socket-Safe :
      (net : Net) (backlog : ℕ) (rest : ℕ → Prog SocketCall)
      → ((net' : Net) (fd : ℕ) → net' fd ≡ listening → Safe p net' (rest fd) Q)
      → Safe p net (listening_socket backlog rest) Q
  unfolding listening_socket
  listening_socket-Safe net backlog rest next = bound_socket-Safe net _ λ net' fd is_bound. (
    rw is_bound refl,
    λ err _.
        Safe-on_sign p _ err.res _ _ Q (λ k e. failed _)
          λ k e. next _ fd (rw e (put_self net' fd listening)),
  )
