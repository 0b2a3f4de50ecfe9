-- ===== src/BufferSizes.antt =====
-- socket/socket_opt/cache_area.c: a program that prints the sizes of a socket's two buffers, sets them, and
-- prints them again. What it prints when a call fails is left out.
pub mod Kernel
pub mod Sizes
mod Tests
use learn_c_linux.Prelude.{ℕ, ◌/◌, ◌%◌, ◌^◌, List, [], ◌∷◌}
use learn_c_linux.Prelude.Int.{ℤ, pos, negsuc}
use learn_c_linux.Sys.{Answer, Prog, done, call, ignore, on_sign}

-- `SO_SNDBUF` and `SO_RCVBUF`.
pub data Buffer : Type 0 where
  sending : Buffer
  receiving : Buffer

-- The last argument of `setsockopt` is the length that it is given; `getsockopt` gets room for an `int`.
-- `kilobytes` is what is printed.
pub data BufferCall : Type 0 where
  socket : BufferCall
  getsockopt : ℤ → Buffer → BufferCall
  setsockopt : ℤ → Buffer → ℕ → ℕ → BufferCall
  kilobytes : ℕ → BufferCall

-- The variable after `getsockopt`, which leaves it where it fails.
unfoldable pub got : ℕ → Answer → ℕ
got old a = elim a.res [ pos _ ↦ elim a.bytes [ [] ↦ old | size ∷ _ ↦ size ] | negsuc _ ↦ old ]

-- The size is asked for and printed.
unfoldable pub show_size : ℤ → Buffer → ℕ → Prog BufferCall → Prog BufferCall
unfolding got
show_size ss buffer old rest =
    call (getsockopt ss buffer) λ err. ignore (kilobytes (got old err / 1024)) rest

-- `optlen_at` is the address of `optlen`. Both calls of `setsockopt` get that address, `&optlen`, in place of
-- the length, cut down to the 32 bits of a `socklen_t`.
unfoldable pub main : ℕ → Prog BufferCall
unfolding show_size
main optlen_at = call socket λ ss. on_sign ss.res (done (negsuc 0)) λ _.
    show_size ss.res sending 0 (
      show_size ss.res receiving 0 (
        ignore (setsockopt ss.res sending 4096 (optlen_at % 2 ^ 32)) (
          ignore (setsockopt ss.res receiving 8192 (optlen_at % 2 ^ 32))
            (show_size ss.res sending 4096 (show_size ss.res receiving 8192 (done (pos 0)))))))
