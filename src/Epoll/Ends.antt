-- ===== src/Epoll/Ends.antt =====
-- socket/io_model/epoll.c: how a connection ends, and how the server does.
use learn_c_linux.Prelude.{
  ℕ, suc, ◌≤◌, ◌<◌, ◌≡◌, ◌⊎◌, refl, Bool, true, false, not, ◌&&◌, ◌==◌, ltb, inl, inr, List, [],
  ◌∷◌, ◌++◌, length, arith,
}
use learn_c_linux.Prelude.Int.{ℤ, pos}
use learn_c_linux.Sys.{Answer, returned, refused, Prog, run, obeys}
use learn_c_linux.Sys.Rule.{run-nil}
use learn_c_linux.Sockets.{SocketCall, Net, connected, sockets, recv, close}
use learn_c_linux.Epoll.{max_events, is_bye, reply, server_handle, handle_events}

-- What a message of at least three bytes begins with does not depend on what stands behind it.
is_bye-append :
    (message behind : List ℕ) → (length message < 3) ⊎ (is_bye (message ++ behind) ≡ is_bye message)
is_bye-append [] behind = inl (omega arith)
is_bye-append (a ∷ []) behind = inl (omega arith)
is_bye-append (a ∷ b ∷ []) behind = inl (omega arith)
is_bye-append (a ∷ b ∷ c ∷ rest) behind = inr refl

-- On a connected client a message of `n + 1` bytes is answered by calls that are allowed if and only if
-- `readbuf`, which has the message and behind it what the memory held, does not begin with "bye": after "bye"
-- the answer is sent on the descriptor that was just closed. A message of three bytes or more decides
-- that alone.
pub server_handle-obeys :
    (cs n : ℕ) (message behind : List ℕ) (a b : Answer) (net : Net)
    → net cs ≡ connected
    → length message ≡ suc n
    → length (message ++ behind) ≡ 800
    → (obeys sockets net (
          run
            (server_handle (pos cs))
            (record { res = pos (suc n); bytes = message ++ behind } ∷ a ∷ b ∷ []))
        ≡ not (is_bye (message ++ behind)))
      × ((length message < 3) ⊎ (is_bye (message ++ behind) ≡ is_bye message))
unfolding server_handle reply
server_handle-obeys cs n message behind a b net h size room =
    (handled (is_bye (message ++ behind)) refl, is_bye-append message behind)
  where
    handled :
        (bye : Bool)
        → is_bye (message ++ behind) ≡ bye
        → obeys sockets net (
            run
              (server_handle (pos cs))
              (record { res = pos (suc n); bytes = message ++ behind } ∷ a ∷ b ∷ []))
          ≡ not (is_bye (message ++ behind))
    handled true bye = rw bye (ground (arith, h))
    handled false stays = rw stays (ground (arith, h))

-- A message of one or two bytes can be taken for "bye" by what the memory held behind it.
pub server_handle-closes_on_b :
    (cs : ℕ) (a b : Answer) (behind : List ℕ) (net : Net)
    → net cs ≡ connected
    → obeys sockets net (
        run
          (server_handle (pos cs))
          (record { res = pos 1; bytes = (b'b' ∷ []) ++ (b'y' ∷ b'e' ∷ behind) } ∷ a ∷ b ∷ []))
      ≡ false
unfolding server_handle reply
server_handle-closes_on_b cs a b behind net h = ground (arith, h)

-- Once `cur_fd` has reached the size of `events`, which it never falls below again, a client that knocks makes
-- the server read from its listening socket, and close it when that fails.
pub handle_events-closes_server :
    (epollfd : ℤ) (ss cur_fd : ℕ) (fds : List ℕ) (next : ℕ → Prog SocketCall)
    → max_events ≤ cur_fd
    → run (handle_events epollfd ss (ss ∷ fds) cur_fd next) (refused ∷ returned (pos 0) ∷ [])
      ≡ (recv (pos ss) 800, refused) ∷ (close (pos ss), returned (pos 0)) ∷ []
unfolding handle_events server_handle
handle_events-closes_server epollfd ss cur_fd fds next full =
    let old : (ss == ss) && ltb cur_fd max_events ≡ false = ground arith in
    rw (handle_events, old, run-nil (handle_events epollfd ss fds cur_fd next)) refl
