-- ===== src/TcpServer/Child.antt =====
-- socket/exmaple/TCP/server.c: the process of a client, after the client has left.
use learn_c_linux.Prelude.{ℕ, zero, suc, ◌≡◌, ◌≢◌, refl, ap, false, [], ◌∷◌, ◌++◌, arith, replicate}
use learn_c_linux.Prelude.Int.{pos}
use learn_c_linux.Sys.{returned, refused, run, obeys}
use learn_c_linux.Sockets.{Text, Net, accept, recv, close, fork, listening, sockets}
use learn_c_linux.TcpServer.{server_handle, serve}

serve-refused :
    (strlen : Text → ℕ) (m n ss : ℕ)
    → run (serve strlen m n (pos ss)) (replicate n refused) ≡ replicate n (accept (pos ss), refused)
unfolding serve
serve-refused strlen m zero ss = refl
serve-refused strlen m (suc n) ss =
    ap (λ t. (accept (pos ss), refused) ∷ t) (serve-refused strlen m n ss)

-- In the child, which has closed the listening socket, the end of the client's data leads back to the
-- loop of the parent: from there on it does nothing but call `accept` on the closed descriptor, as long
-- as the kernel refuses it, and that is not allowed.
pub serve-refused_in_child :
    (strlen : Text → ℕ) (m n ss cs : ℕ) (net : Net)
    → net ss ≡ listening
    → cs ≢ ss
    → let before =
        returned (pos cs) ∷ returned (pos 0) ∷ returned (pos 0) ∷ returned (pos 0) ∷ [] in
      let t =
        run (serve strlen (suc m) (suc (suc n)) (pos ss)) (before ++ replicate (suc n) refused) in
      (t
        ≡ (accept (pos ss), returned (pos cs))
          ∷ (fork, returned (pos 0))
          ∷ (close (pos ss), returned (pos 0))
          ∷ (recv (pos cs) 1024, returned (pos 0))
          ∷ replicate (suc n) (accept (pos ss), refused))
      × (obeys sockets net t ≡ false)
unfolding serve server_handle
serve-refused_in_child strlen m n ss cs net h apart =
    (rw (serve-refused strlen (suc m) n ss) refl, ground (arith, h, apart))
