-- ===== src/Udp/Finder.antt =====
-- socket/spread_method/server.c: a server that answers every datagram with the same text.
use learn_c_linux.Prelude.{ℕ, zero, suc}
use learn_c_linux.Prelude.Int.{ℤ, pos}
use learn_c_linux.Sys.{Prog, done, cut, ignore, ◌>>◌}
use learn_c_linux.Sockets.{SocketCall, fixed, sendto, recvfrom}
use learn_c_linux.Sockets.Setup.{bound_socket}

-- The loop, followed for some rounds; "IP_FOUND_ACK" has 13 bytes with its 0.
unfoldable pub udpserver_echo : ℕ → ℤ → Prog SocketCall
udpserver_echo zero s = cut
udpserver_echo (suc n) s =
    ignore (recvfrom s 1024) (ignore (sendto s fixed (pos 13)) (udpserver_echo n s))

unfoldable pub main : ℕ → Prog SocketCall
unfolding udpserver_echo
main n = bound_socket λ ss. udpserver_echo n (pos ss) >> done (pos 0)
