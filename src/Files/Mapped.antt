-- ===== src/Files/Mapped.antt =====
-- linux_file/mmap.c: a file of 80 bytes that is written through a mapping. What it prints is left out.
pub mod Inside
use learn_c_linux.Prelude.{ℕ, ◌-◌, true, false}
use learn_c_linux.Prelude.Int.{ℤ, pos, negsuc}
use learn_c_linux.Sys.{Answer, Prog, done, call, ignore, on_minus_one}
use learn_c_linux.Files.Calls.{FileCall, open_file, lseek, write, mmap, store, munmap, close}

abbrev pub file_size : ℕ
file_size = 80

-- From the file's descriptor on; the text has 30 bytes.
unfoldable pub write_mapped : ℤ → Prog FileCall
write_mapped fd = ignore (lseek fd (file_size - 1)) (
    ignore (write fd 1) (
      call (mmap fd file_size) λ ptr.
        on_minus_one ptr.res (ignore (close fd) (done (negsuc 0)))
          (ignore (store 16 30) (ignore (munmap file_size) (ignore (close fd) (done (pos 0)))))))

unfoldable pub main : Prog FileCall
unfolding write_mapped
main = call (open_file true) λ fd.
    on_minus_one fd.res (call (open_file false) λ fd'. write_mapped fd'.res) (write_mapped fd.res)
