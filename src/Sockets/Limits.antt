-- ===== src/Sockets/Limits.antt =====
-- Sizes: how many events, and how many bytes, a program lets the kernel write or read at once. The sizes of
-- its buffers are the limits.
use learn_c_linux.Prelude.{ℕ, Bool, true, false, ◌&&◌, leb}
use learn_c_linux.Prelude.Int.{ℤ, pos, negsuc}
use learn_c_linux.Sys.{Protocol}
use learn_c_linux.Sockets.{SocketCall, recv, recvfrom, send, sendto, epoll_wait}

abbrev is_size : ℤ → ℕ → Bool
is_size (pos n) limit = leb n limit
is_size (negsuc n) limit = false

-- `epoll_wait` wants at least one event.
abbrev pub fits : ℕ → ℕ → ℕ → SocketCall → Bool
fits events input output (recv fd n) = leb n input
fits events input output (recvfrom fd n) = leb n input
fits events input output (send fd t n) = is_size n output
fits events input output (sendto fd t n) = is_size n output
fits events input output (epoll_wait ep n) = leb 1 n && leb n events
fits events input output _ = true

-- It does not matter what was called before, and any answer will do.
abbrev pub limits : ℕ → ℕ → ℕ → Protocol SocketCall (Unit {0})
limits events input output = record {
  allows = λ _. fits events input output;
  after = λ _ _ _. tt;
  is_honest = λ _ _ _. true;
}
