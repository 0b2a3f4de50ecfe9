-- ===== src/SelectServer/SetUp.antt =====
-- socket/io_model/select.c: the calls of `main` before its loop.
use learn_c_linux.Prelude.{ℕ}
use learn_c_linux.Prelude.Int.{ℤ, negsuc}
use learn_c_linux.Sys.{Prog, done, call, on_sign}
use learn_c_linux.Sockets.{SocketCall, socket, bind, listen}

abbrev pub max_queue_len : ℕ
max_queue_len = 10

-- `rest` is the loop, on the server's socket.
unfoldable pub set_up : (ℤ → Prog SocketCall) → Prog SocketCall
set_up rest = call socket λ ss. call (bind ss.res) λ bound. on_sign bound.res (done (negsuc 0)) λ _.
    call (listen ss.res max_queue_len)
      λ listened. on_sign listened.res (done (negsuc 0)) λ _. rest ss.res
