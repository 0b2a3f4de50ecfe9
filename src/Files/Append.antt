-- ===== src/Files/Append.antt =====
-- linux_file/write_file.c: a text of 21 bytes at the end of a file. What it prints is left out.
use learn_c_linux.Prelude.{false}
use learn_c_linux.Prelude.Int.{pos, negsuc}
use learn_c_linux.Sys.{Prog, done, call, ignore, on_minus_one}
use learn_c_linux.Files.Calls.{FileCall, open_file, write, close}

unfoldable pub main : Prog FileCall
main = call (open_file false) λ fd.
    on_minus_one fd.res (done (negsuc 0))
      (ignore (write fd.res 21) (ignore (close fd.res) (done (pos 0))))
