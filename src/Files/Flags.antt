-- ===== src/Files/Flags.antt =====
-- linux_file/fcntl.c: how the standard input has been opened. The constants are those of fcntl.h, and come in
-- as arguments.
use Prim.Native.Nat.{bit_and}
use learn_c_linux.Prelude.{ℕ, ◌==◌, if◌then◌else◌, List, [], ◌∷◌, ◌++◌}
use learn_c_linux.Prelude.Int.{pos, negsuc}
use learn_c_linux.Sys.{Prog, done, call, ignore, on_sign}
use learn_c_linux.Files.Calls.{FileCall, get_flags, print}

pub record Constants : Type 0 where
  pub o_accmode : ℕ
  pub o_rdonly : ℕ
  pub o_wronly : ℕ
  pub o_rdwr : ℕ
  pub o_append : ℕ
  pub o_nonblock : ℕ

-- The lines that are printed, in the order of the code: read only, write only, write read, other mode, append,
-- and not blocking.
unfoldable pub lines : Constants → ℕ → List ℕ
lines c flags =
    let accmode = bit_and flags c.o_accmode in
    (if accmode == c.o_rdonly
      then 0
      else if accmode == c.o_wronly
      then 1
      else if accmode == c.o_rdwr
      then 2
      else 3)
    ∷ ((if bit_and flags c.o_append == 0 then [] else 4 ∷ [])
        ++ (if bit_and flags c.o_nonblock == 0 then [] else 5 ∷ []))

unfoldable pub main : Constants → Prog FileCall
unfolding lines
main c =
    call (get_flags (pos 0))
      λ flags. on_sign flags.res (done (negsuc 0)) λ n. ignore (print (lines c n)) (done (pos 0))
