-- ===== src/Files/Read.antt =====
-- linux_file/read_file.c: a program that prints a file.
pub mod Prints
use learn_c_linux.Prelude.{ℕ, zero, suc, true, false, take}
use learn_c_linux.Prelude.Int.{ℤ, pos, negsuc}
use learn_c_linux.Sys.{Prog, done, cut, call, ignore, on_minus_one, on_positive, on_zero}
use learn_c_linux.Files.Calls.{FileCall, open_file, read, close, print}

-- The `while` loop, followed for some rounds: it goes on while `size` is not 0.
unfoldable pub read_all : ℕ → ℤ → Prog FileCall
read_all zero fd = cut
read_all (suc n) fd = call (read fd 10) λ size.
    on_minus_one size.res (ignore (close fd) (done (negsuc 0))) (
      on_positive size.res (λ k. ignore (print (take k size.bytes)) (read_all n fd))
        (on_zero size.res (done (pos 0)) (read_all n fd)))

unfoldable pub main : ℕ → Prog FileCall
unfolding read_all
main n =
    call (open_file true) λ fd.
      on_minus_one fd.res (call (open_file false) λ fd'. read_all n fd'.res) (read_all n fd.res)
