-- ===== src/Sockets/Setup/Sizes.antt =====
-- Setting up a socket involves no sizes.
use learn_c_linux.Prelude.{ℕ, ◌≡◌, refl, true, List, [], ◌∷◌}
use learn_c_linux.Prelude.Int.{ℤ, negsuc}
use learn_c_linux.Sys.{Answer, Prog, Protocol, honest}
use learn_c_linux.Sys.Rule.{Safe, Safe-on_sign}
use learn_c_linux.Sockets.{SocketCall}
use learn_c_linux.Sockets.Limits.{limits}
use learn_c_linux.Sockets.Setup.{bound_socket, listening_socket}

module _ (events input output : ℕ) where
  abbrev p : Protocol SocketCall (Unit {0})
  p = limits events input output

  pub honest-limits : (t : List (SocketCall × Answer)) → honest p tt t ≡ true
  honest-limits [] = refl
  honest-limits (x ∷ t) = honest-limits t

  module _ (Q : Unit {0} → ℤ → Type 0) (failed : (s : Unit {0}) → Q s (negsuc 0)) where
    pub bound_socket-fits :
        (rest : ℕ → Prog SocketCall)
        → ((fd : ℕ) → Safe p tt (rest fd) Q)
        → Safe p tt (bound_socket rest) Q
    unfolding bound_socket
    bound_socket-fits rest next = (
      refl,
      λ ss _.
          Safe-on_sign p tt ss.res _ _ Q (λ _ _. failed tt)
            λ fd _.
              (refl, λ err _. Safe-on_sign p tt err.res _ _ Q (λ _ _. failed tt) λ _ _. next fd),
    )

    pub listening_socket-fits :
        (backlog : ℕ) (rest : ℕ → Prog SocketCall)
        → ((fd : ℕ) → Safe p tt (rest fd) Q)
        → Safe p tt (listening_socket backlog rest) Q
    unfolding listening_socket
    listening_socket-fits backlog rest next =
        bound_socket-fits _
          λ fd. (refl, λ err _. Safe-on_sign p tt err.res _ _ Q (λ _ _. failed tt) λ _ _. next fd)
