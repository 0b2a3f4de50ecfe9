-- ===== src/Chat/Server.antt =====
-- practise/chat/server.c: the processes. The shared memory, which other processes change at any time, is what
-- each process finds in it: an argument for each message.
use learn_c_linux.Prelude.{ℕ, zero, suc, ◌+◌, ◌≡◌, false, none, some, List, [], ◌∷◌, arith}
use learn_c_linux.Prelude.Int.{ℤ, pos, negsuc}
use learn_c_linux.Sys.{
  returned, Prog, exit, cut, call, ignore, on_sign, on_zero, on_positive, run, obeys, ◌>>◌,
}
use learn_c_linux.Sockets.{
  SocketCall, Text, from, fixed, Net, connected, closed, sockets, accept, recv, send, close, fork,
}
use learn_c_linux.Sockets.Setup.{listening_socket}
use learn_c_linux.Chat.{Clients, push_fd, receivers}

-- The loop that sends a message to every listed client. A failed `write` is only reported.
unfoldable pub broadcast : Text → ℤ → List ℕ → Prog SocketCall → Prog SocketCall
broadcast text len [] rest = rest
broadcast text len (fd ∷ fds) rest = ignore (send (pos fd) text len) (broadcast text len fds rest)

-- `shm n` is the array in the shared memory when message `n` from the end is handled, and `strlen` the length
-- of a text. `cut` also where the array has no 0.
unfoldable pub server_handle : (Text → ℕ) → (ℕ → List ℕ) → ℕ → ℤ → Prog SocketCall
unfolding broadcast
server_handle strlen shm zero c_fd = cut
server_handle strlen shm (suc n) c_fd = call (recv c_fd 512) λ size.
    on_positive size.res
      (λ _.
        let text = from c_fd size.bytes in
        elim (receivers (shm n)) [
          | none ↦ cut
          | some fds ↦ broadcast text (pos (strlen text + 1)) fds (server_handle strlen shm n c_fd)
        ])
      (ignore (send c_fd fixed (pos (strlen fixed + 1))) (ignore (close c_fd) (exit (negsuc 0))))

abbrev max_client : ℕ
max_client = 10

-- The loop of `main`. Where `push_fd` would write outside the memory, `cut`.
unfoldable pub serve : (Text → ℕ) → (ℕ → List ℕ) → ℕ → ℕ → Clients → ℤ → Prog SocketCall
unfolding server_handle
serve strlen shm m zero s ss = cut
serve strlen shm m (suc n) s ss = call (accept ss) λ cs.
    on_sign cs.res (serve strlen shm m n s ss) λ fd. elim (push_fd fd max_client s) [
      | none ↦ cut
      | some (_, s') ↦ call fork λ pid.
          on_zero pid.res
            (ignore (close ss) (server_handle strlen shm m cs.res >> serve strlen shm m n s' ss))
            (serve strlen shm m n s' ss)
    ]

unfoldable pub main : (Text → ℕ) → (ℕ → List ℕ) → ℕ → ℕ → Clients → Prog SocketCall
unfolding serve
main strlen shm m n s = listening_socket 5 λ ss. serve strlen shm m n s (pos ss)

-- A client that connects after a process was forked has no open descriptor there, although its number is in
-- the shared memory: the process writes to a descriptor that is not open.
pub server_handle-later_client :
    (strlen : Text → ℕ) (shm : ℕ → List ℕ) (n c_fd later k : ℕ) (rest message : List ℕ) (net : Net)
    → net c_fd ≡ connected
    → net later ≡ closed
    → receivers (shm n) ≡ some (later ∷ rest)
    → obeys sockets net (
        run
          (server_handle strlen shm (suc n) (pos c_fd))
          (record { res = pos (suc k); bytes = message } ∷ returned (negsuc 0) ∷ []))
      ≡ false
unfolding server_handle
server_handle-later_client strlen shm n c_fd later k rest message net mine other listed =
    rw listed (ground (arith, mine, other))
