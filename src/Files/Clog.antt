-- ===== src/Files/Clog.antt =====
-- process/communication/pipe/read_clog.c: a parent that writes to its child, which waits for it.
use learn_c_linux.Prelude.Int.{ℤ, pos, negsuc}
use learn_c_linux.Sys.{Prog, done, call, ignore, on_minus_one, on_zero}
use learn_c_linux.Files.Calls.{FileCall, read, write, close, pipe, fork, print, read_end, write_end}

unfoldable pub child : ℤ → ℤ → Prog FileCall
child read_fd write_fd =
    ignore (close write_fd)
      (call (read read_fd 80) λ size. ignore (print size.bytes) (done (pos 0)))

-- The text has 13 bytes with its 0.
unfoldable pub parent : ℤ → ℤ → Prog FileCall
parent read_fd write_fd = ignore (close read_fd) (ignore (write write_fd 13) (done (pos 0)))

unfoldable pub main : Prog FileCall
unfolding child parent
main = call pipe λ fd. on_minus_one fd.res (done (negsuc 0)) (
    call fork λ pid. on_minus_one pid.res (done (negsuc 0)) (
      on_zero pid.res (child (read_end fd.bytes) (write_end fd.bytes))
        (parent (read_end fd.bytes) (write_end fd.bytes))))
