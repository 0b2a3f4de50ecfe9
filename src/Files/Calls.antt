-- ===== src/Files/Calls.antt =====
-- The system calls of the programs on files and pipes.
use learn_c_linux.Prelude.{ℕ, Bool, List, ◌∷◌}
use learn_c_linux.Prelude.Int.{ℤ, pos}

-- `open_file` has `O_CREAT` and `O_EXCL`, or not; `read` and `write` have the size that is asked for or given; `print`
-- is what a program prints of what it has read. `lseek` has the place from the start, `mmap` and `munmap` the size;
-- `store` is a copy of so many bytes to a place of the mapping; `get_flags` is `fcntl` with `F_GETFL`,
-- `tell` is `lseek` by 0 from the place where the file is, and the commands 1031 and 1032 of `fcntl` set and get the size
-- of a pipe. `print_int` prints a number.
pub data FileCall : Type 0 where
  open_file : Bool → FileCall
  read : ℤ → ℕ → FileCall
  write : ℤ → ℕ → FileCall
  close : ℤ → FileCall
  pipe : FileCall
  fork : FileCall
  print : List ℕ → FileCall
  lseek : ℤ → ℕ → FileCall
  mmap : ℤ → ℕ → FileCall
  store : ℕ → ℕ → FileCall
  munmap : ℕ → FileCall
  get_flags : ℤ → FileCall
  tell : ℤ → FileCall
  set_pipe_size : ℤ → ℕ → FileCall
  get_pipe_size : ℤ → FileCall
  print_int : ℤ → FileCall

-- The ends of a pipe, as `pipe` writes them, and 0 in place of what the memory held where it does not.
abbrev pub read_end : List ℕ → ℤ
read_end (r ∷ w ∷ rest) = pos r
read_end _ = pos 0

abbrev pub write_end : List ℕ → ℤ
write_end (r ∷ w ∷ rest) = pos w
write_end _ = pos 0
