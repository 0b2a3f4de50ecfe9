-- ===== src/Files/Opened.antt =====
-- linux_file/open_file.c: two files that are opened, the second one as a new file if it can be. The names and
-- what is printed are left out.
use learn_c_linux.Prelude.{true, false}
use learn_c_linux.Prelude.Int.{pos}
use learn_c_linux.Sys.{Prog, done, call, ignore, on_minus_one}
use learn_c_linux.Files.Calls.{FileCall, open_file, close}

unfoldable pub main : Prog FileCall
main = ignore (open_file false) (
    call (open_file true) λ fd.
      on_minus_one fd.res (call (open_file false) λ fd'. ignore (close fd'.res) (done (pos 0)))
        (ignore (close fd.res) (done (pos 0))))
