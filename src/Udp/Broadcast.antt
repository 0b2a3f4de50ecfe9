-- ===== src/Udp/Broadcast.antt =====
-- socket/spread_method/broadcast.c: a client that looks for a server by broadcasts.
pub mod Bound
use learn_c_linux.Prelude.{
  ℕ, zero, suc, ◌&&◌, ◌==◌, Bool, true, false, List, [], ◌∷◌, ◌++◌, drop, length, if◌then◌else◌,
}
use learn_c_linux.Prelude.Int.{ℤ, pos, negsuc}
use learn_c_linux.Sys.{Prog, done, call, ignore, on_sign}
use learn_c_linux.Sockets.{SocketCall, fixed, socket, setsockopt, ioctl, sendto, recvfrom}

-- `strncmp(a, b, n) == 0` for a string `a` with its 0, of `n` bytes.
abbrev pub starts_with : List ℕ → List ℕ → Bool
starts_with [] b = true
starts_with (x ∷ a) [] = false
starts_with (x ∷ a) (y ∷ b) = (x == y) && starts_with a b

-- "IP_FOUND_ACK" with its 0.
abbrev pub ip_found_ack : List ℕ
ip_found_ack = 73 ∷ 80 ∷ 95 ∷ 70 ∷ 79 ∷ 85 ∷ 78 ∷ 68 ∷ 95 ∷ 65 ∷ 67 ∷ 75 ∷ 0 ∷ []

-- `buff` after a `recvfrom`, of which a failed one writes nothing.
abbrev pub received : List ℕ → List ℕ → List ℕ
received bytes buff = bytes ++ drop (length bytes) buff

-- The `for` loop, with the rounds that are left.
unfoldable pub find : ℕ → ℤ → List ℕ → Prog SocketCall
find zero ss buff = done (pos 0)
find (suc n) ss buff = call (sendto ss fixed (pos 8)) λ res. on_sign res.res (find n ss buff) λ _.
    call (recvfrom ss 32) λ size.
      if starts_with ip_found_ack (received size.bytes buff)
      then done (pos 0)
      else find n ss (received size.bytes buff)

-- `buff` is what the memory held before.
unfoldable pub main : List ℕ → Prog SocketCall
unfolding find
main buff = call socket λ ss. on_sign ss.res (done (negsuc 0)) λ _.
    call (ioctl ss.res)
      λ err. on_sign err.res (done (negsuc 0)) λ _. ignore (setsockopt ss.res) (find 10 ss.res buff)
