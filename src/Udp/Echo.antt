-- ===== src/Udp/Echo.antt =====
-- socket/exmaple/UDP/server.c: a server that sends every datagram back.
pub mod Laws
use learn_c_linux.Prelude.{ℕ, zero, suc}
use learn_c_linux.Prelude.Int.{ℤ, pos}
use learn_c_linux.Sys.{Prog, done, cut, call, ignore, ◌>>◌}
use learn_c_linux.Sockets.{SocketCall, raw, sendto, recvfrom}
use learn_c_linux.Sockets.Setup.{bound_socket}

-- The loop, followed for some rounds. The size that `recvfrom` returns is not looked at.
unfoldable pub udpserver_echo : ℕ → ℤ → Prog SocketCall
udpserver_echo zero s = cut
udpserver_echo (suc n) s =
    call (recvfrom s 1024) λ size. ignore (sendto s (raw size.bytes) size.res) (udpserver_echo n s)

unfoldable pub main : ℕ → Prog SocketCall
unfolding udpserver_echo
main n = bound_socket λ ss. udpserver_echo n (pos ss) >> done (pos 0)
