-- ===== src/Files/Pipe.antt =====
-- process/communication/pipe/pipe.c: a child that writes to its parent.
use learn_c_linux.Prelude.Int.{ℤ, pos, negsuc}
use learn_c_linux.Sys.{Prog, done, call, ignore, on_minus_one, on_zero}
use learn_c_linux.Files.Calls.{FileCall, read, write, close, pipe, fork, print, read_end, write_end}

-- The text has 12 bytes.
unfoldable pub child : ℤ → ℤ → Prog FileCall
child read_fd write_fd = ignore (close read_fd) (ignore (write write_fd 12) (done (pos 0)))

unfoldable pub parent : ℤ → ℤ → Prog FileCall
parent read_fd write_fd =
    ignore (close write_fd)
      (call (read read_fd 80) λ nbytes. ignore (print nbytes.bytes) (done (pos 0)))

unfoldable pub main : Prog FileCall
unfolding child parent
main = call pipe λ fd. on_minus_one fd.res (done (negsuc 0)) (
    call fork λ pid. on_minus_one pid.res (done (negsuc 0)) (
      on_zero pid.res (child (read_end fd.bytes) (write_end fd.bytes))
        (parent (read_end fd.bytes) (write_end fd.bytes))))
