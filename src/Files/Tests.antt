-- ===== src/Files/Tests.antt =====
-- Runs of the programs on files and pipes, and their theorems at concrete inputs.
use learn_c_linux.Prelude.{ℕ, ◌≡◌, refl, true, false, some, List, [], ◌∷◌, arith}
use learn_c_linux.Prelude.Int.{pos, negsuc}
use learn_c_linux.Sys.{Answer, returned, refused, run, result, returned_by, obeys, final}
use learn_c_linux.Files.Calls.{
  open_file, get_flags, set_pipe_size, get_pipe_size, print_int, close, write, pipe, fork,
}
use learn_c_linux.Files.Read.{read_all}
use learn_c_linux.Files.Read.Prints.{printed, handed, read_all-prints}
use learn_c_linux.Files.PipeBuf.{child, buffer_size}
use learn_c_linux.Files.PipeBuf.Written.{rest_of_buffer, child-writes}
use learn_c_linux.Files.Pipe
use learn_c_linux.Files.Append
use learn_c_linux.Files.Opened
use learn_c_linux.Files.Seek
use learn_c_linux.Files.PipeSize
use learn_c_linux.Files.Flags.{Constants, lines}
use learn_c_linux.Files.Mapped
use learn_c_linux.Files.Mapped.Inside.{Mapping, mapping, main-obeys-mapping}
use learn_c_linux.Files.Clog

-- The child fills the pipe, waits, and writes the rest.
abbrev two_halves : List Answer
two_halves = returned (pos 65536) ∷ refused ∷ returned (pos 65536) ∷ []

child-writes_example :
    (returned_by (child 4 (pos 3) (pos 4)) (returned (pos 0) ∷ two_halves) ≡ some (pos 0))
    × (obeys rest_of_buffer 0 (run (child 4 (pos 3) (pos 4)) (returned (pos 0) ∷ two_halves))
        ≡ true)
    × (final rest_of_buffer 0 (run (child 4 (pos 3) (pos 4)) (returned (pos 0) ∷ two_halves))
        ≡ buffer_size)
unfolding child
child-writes_example =
    child-writes 4 (pos 3) (pos 4) (returned (pos 0)) two_halves (omega arith) (omega arith) refl

abbrev parts : List (ℕ × List ℕ)
parts = (104, 105 ∷ 33 ∷ []) ∷ (10, []) ∷ []

read_all-prints_example :
    (printed (run (read_all 3 (pos 3)) (handed parts (returned (pos 0))))
      ≡ 104 ∷ 105 ∷ 33 ∷ 10 ∷ [])
    × (result (read_all 3 (pos 3)) (handed parts (returned (pos 0))) ≡ some (pos 0))
    × (printed (run (read_all 3 (pos 3)) (handed parts (returned (negsuc 0))))
        ≡ 104 ∷ 105 ∷ 33 ∷ 10 ∷ [])
    × (result (read_all 3 (pos 3)) (handed parts (returned (negsuc 0))) ≡ some (negsuc 0))
read_all-prints_example = read_all-prints (pos 3) parts

-- What `pipe` returns when it opens 3 and 4.
abbrev ends : Answer
ends = record { res = pos 0; bytes = 3 ∷ 4 ∷ [] }

parent_waits :
    run Clog.main (ends ∷ returned (pos 77) ∷ returned (pos 0) ∷ returned (pos 13) ∷ [])
    ≡ (pipe, ends)
      ∷ (fork, returned (pos 77))
      ∷ (close (pos 3), returned (pos 0))
      ∷ (write (pos 4) 13, returned (pos 13))
      ∷ []
unfolding Clog.main
parent_waits = refl

no_pipe : result Pipe.main (refused ∷ []) ≡ some (negsuc 0)
unfolding Pipe.main
no_pipe = refl

appends :
    run Append.main (returned (pos 3) ∷ returned (pos 21) ∷ returned (pos 0) ∷ [])
    ≡ (open_file false, returned (pos 3))
      ∷ (write (pos 3) 21, returned (pos 21))
      ∷ (close (pos 3), returned (pos 0))
      ∷ []
unfolding Append.main
appends = refl

-- The values on Linux; the standard input is open for both, and for appending.
abbrev linux : Constants
linux = record {
  o_accmode = 3;
  o_rdonly = 0;
  o_wronly = 1;
  o_rdwr = 2;
  o_append = 1024;
  o_nonblock = 2048;
}

write_read : lines linux 1026 ≡ 2 ∷ 4 ∷ []
unfolding lines
write_read = refl

-- The file is there already; the mapping is at 4096.
abbrev mapped : List Answer
mapped =
    let ok = returned (pos 0) in
    refused
    ∷ returned (pos 3)
    ∷ returned (pos 79)
    ∷ returned (pos 1)
    ∷ returned (pos 4096)
    ∷ ok
    ∷ ok
    ∷ ok
    ∷ []

empty_file : Mapping
empty_file = record { size = 0; place = 0; mapped = 0 }

main-obeys-mapping_example : obeys mapping empty_file (run Mapped.main mapped) ≡ true
unfolding Mapped.main
main-obeys-mapping_example = main-obeys-mapping empty_file mapped refl

one_is_closed :
    run Opened.main (returned (pos 3) ∷ returned (pos 4) ∷ returned (pos 0) ∷ [])
    ≡ (open_file false, returned (pos 3))
      ∷ (open_file true, returned (pos 4))
      ∷ (close (pos 4), returned (pos 0))
      ∷ []
unfolding Opened.main
one_is_closed = refl

no_place : result Seek.main (refused ∷ []) ≡ some (negsuc 0)
unfolding Seek.main
no_place = refl

shows_size :
    run PipeSize.main (
      ends ∷ returned (pos 0) ∷ returned (pos 65536) ∷ returned (pos 65536) ∷ returned (pos 0) ∷ [])
    ≡ (pipe, ends)
      ∷ (get_flags (pos 3), returned (pos 0))
      ∷ (set_pipe_size (pos 3) 65536, returned (pos 65536))
      ∷ (get_pipe_size (pos 3), returned (pos 65536))
      ∷ (print_int (pos 65536), returned (pos 0))
      ∷ []
unfolding PipeSize.main
shows_size = refl
