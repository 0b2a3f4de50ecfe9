-- ===== src/Files/PipeSize.antt =====
-- process/communication/pipe/get_pipe_buf.c: the size of a pipe.
use learn_c_linux.Prelude.Int.{pos, negsuc}
use learn_c_linux.Sys.{Prog, done, call, ignore, on_minus_one}
use learn_c_linux.Files.Calls.{
  FileCall, pipe, get_flags, set_pipe_size, get_pipe_size, print_int, read_end,
}

unfoldable pub main : Prog FileCall
main = call pipe λ fd. on_minus_one fd.res (done (negsuc 0)) (
    ignore (get_flags (read_end fd.bytes)) (
      call (set_pipe_size (read_end fd.bytes) 65536) λ err. on_minus_one err.res (done (negsuc 0)) (
        call (get_pipe_size (read_end fd.bytes))
          λ pipe_buf. ignore (print_int pipe_buf.res) (done (pos 0)))))
