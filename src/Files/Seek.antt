-- ===== src/Files/Seek.antt =====
-- linux_file/lseek_file.c: whether a place can be set in the file with descriptor 1. What is printed is left out.
use learn_c_linux.Prelude.Int.{pos, negsuc}
use learn_c_linux.Sys.{Prog, done, call, on_minus_one}
use learn_c_linux.Files.Calls.{FileCall, tell}

unfoldable pub main : Prog FileCall
main = call (tell (pos 1)) λ offset. on_minus_one offset.res (done (negsuc 0)) (done (pos 0))
