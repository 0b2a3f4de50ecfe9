-- ===== src/Udp/Client.antt =====
-- socket/exmaple/UDP/client.c: a client that sends one datagram and prints the answer.
use learn_c_linux.Prelude.Int.{ℤ, pos}
use learn_c_linux.Sys.{Prog, done, call, ignore, ◌>>◌}
use learn_c_linux.Sockets.{SocketCall, fixed, socket, sendto, recvfrom}

-- The whole buffer is sent, with the zeros behind its text.
unfoldable pub udpclie_echo : ℤ → Prog SocketCall
udpclie_echo s = ignore (sendto s fixed (pos 1024)) (ignore (recvfrom s 1024) (done (pos 0)))

-- The value of `socket` is not looked at.
unfoldable pub main : Prog SocketCall
unfolding udpclie_echo
main = call socket λ ss. udpclie_echo ss.res >> done (pos 0)
