-- ===== src/BufferSizes/Kernel.antt =====
-- socket/socket_opt/cache_area.c: what the manual pages say of the calls. socket(7): the kernel doubles
-- the size that is set, up to a limit, and the doubled value is returned. setsockopt(2): it fails with
-- `EINVAL` where the length is not valid, which is one below that of an `int`, or negative as an `int`.
use learn_c_linux.Prelude.{
  ℕ, ◌*◌, ◌^◌, ◌==◌, ◌&&◌, leb, ltb, Bool, true, false, not, if◌then◌else◌, List, [], ◌∷◌, ◌++◌,
}
use learn_c_linux.Prelude.Int.{ℤ, pos, negsuc}
use learn_c_linux.Sys.{Answer, Protocol}
use learn_c_linux.BufferSizes.{
  Buffer, sending, receiving, BufferCall, getsockopt, setsockopt, kilobytes,
}

-- The sizes in force, and what has been printed.
pub record Sizes : Type 0 where
  pub send_size : ℕ
  pub recv_size : ℕ
  pub shown : List ℕ

-- Before anything has been printed.
abbrev pub at_start : ℕ → ℕ → Sizes
at_start send_size recv_size = record { send_size = send_size; recv_size = recv_size; shown = [] }

abbrev pub size_of : Sizes → Buffer → ℕ
size_of s sending = s.send_size
size_of s receiving = s.recv_size

abbrev pub doubled : ℕ → ℕ → ℕ
doubled limit n = 2 * (if ltb limit n then limit else n)

abbrev pub is_size : ℕ → List ℕ → Bool
is_size n [] = false
is_size n (m ∷ rest) = m == n

abbrev pub is_done : ℤ → Bool
is_done (pos n) = n == 0
is_done (negsuc n) = false

-- A length that `setsockopt` accepts for an `int`.
abbrev pub is_length : ℕ → Bool
is_length len = leb 4 len && ltb len (2 ^ 31)

-- With the limits `wmem_max` and `rmem_max`.
module _ (wmem_max rmem_max : ℕ) where
  abbrev pub resize : Sizes → Buffer → ℕ → Sizes
  resize s sending n = record s { send_size = doubled wmem_max n }
  resize s receiving n = record s { recv_size = doubled rmem_max n }

  abbrev pub after_call : Sizes → BufferCall → Answer → Sizes
  after_call s (setsockopt ss b n len) a = if is_length len then resize s b n else s
  after_call s (kilobytes n) a = record s { shown = s.shown ++ (n ∷ []) }
  after_call s _ a = s

  abbrev pub honest_answer : Sizes → BufferCall → Answer → Bool
  honest_answer s (getsockopt ss b) a = is_done a.res && is_size (size_of s b) a.bytes
  honest_answer s (setsockopt ss b n len) a =
      if is_length len then is_done a.res else not (is_done a.res)
  honest_answer s _ a = true

  abbrev pub buffers : Protocol BufferCall Sizes
  buffers = record { allows = λ _ _. true; after = after_call; is_honest = honest_answer }
