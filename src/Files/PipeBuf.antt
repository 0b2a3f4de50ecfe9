-- ===== src/Files/PipeBuf.antt =====
-- process/communication/pipe/pipe_buf_test.c: a child that writes 128 kilobytes to its parent.
pub mod Written
use learn_c_linux.Prelude.{ℕ, zero, suc, ◌-◌, ltb, if◌then◌else◌}
use learn_c_linux.Prelude.Int.{ℤ, pos, negsuc}
use learn_c_linux.Sys.{Prog, done, cut, call, ignore, on_minus_one, on_zero, on_positive}
use learn_c_linux.Files.Calls.{FileCall, read, write, close, pipe, fork, print, read_end, write_end}

abbrev pub buffer_size : ℕ
buffer_size = 131072

-- The child's loop, followed for some rounds. Where a `write` returned more than it was given, `write_size`
-- would be below 0; here it is 0, and the loop ends just so.
unfoldable pub write_all : ℕ → ℤ → ℕ → Prog FileCall
write_all zero write_fd write_size = cut
write_all (suc n) write_fd write_size =
    if ltb 0 write_size
    then (call (write write_fd write_size) λ result.
        on_positive result.res (λ k. write_all n write_fd (write_size - k))
          (write_all n write_fd write_size))
    else done (pos 0)

unfoldable pub child : ℕ → ℤ → ℤ → Prog FileCall
unfolding write_all
child n read_fd write_fd = ignore (close read_fd) (write_all n write_fd buffer_size)

-- The parent's loop.
unfoldable pub read_all : ℕ → ℤ → Prog FileCall
read_all zero read_fd = cut
read_all (suc n) read_fd = call (read read_fd 10240) λ nbytes.
    on_positive nbytes.res (λ _. ignore (print nbytes.bytes) (read_all n read_fd)) (done (pos 0))

unfoldable pub parent : ℕ → ℤ → ℤ → Prog FileCall
unfolding read_all
parent n read_fd write_fd = ignore (close write_fd) (read_all n read_fd)

unfoldable pub main : ℕ → Prog FileCall
unfolding child parent
main n = call pipe λ fd. on_minus_one fd.res (done (negsuc 0)) (
    call fork λ pid. on_minus_one pid.res (done (negsuc 0)) (
      on_zero pid.res (child n (read_end fd.bytes) (write_end fd.bytes))
        (parent n (read_end fd.bytes) (write_end fd.bytes))))
