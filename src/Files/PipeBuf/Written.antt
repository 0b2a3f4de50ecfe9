-- ===== src/Files/PipeBuf/Written.antt =====
-- process/communication/pipe/pipe_buf_test.c: how much the child writes.
use learn_c_linux.Prelude.{
  length, Bool-cases, inl, inr, ℕ, zero, suc, ◌+◌, ◌-◌, ◌≤◌, ◌<◌, ◌≡◌, refl, Bool, true, false,
  ◌&&◌, ◌==◌, ltb, leb, leb→le, some, List, [], ◌∷◌, arith,
}
use learn_c_linux.Prelude.Int.{ℤ, pos, negsuc}
use learn_c_linux.Sys.{Answer, Protocol, run, returned_by, obeys, honest, final, on_positive}
use learn_c_linux.Sys.Rule.{Safe, Safe-if, Safe-obeys, Safe-final}
use learn_c_linux.Files.Calls.{FileCall, write}
use learn_c_linux.Files.PipeBuf.{buffer_size, write_all, child}

-- What a `write` that returns `z` has written.
abbrev taken : ℤ → ℕ
taken (pos n) = n
taken (negsuc n) = 0

abbrev asks_for : ℕ → FileCall → Bool
asks_for written (write fd n) = (written + n == buffer_size) && ltb 0 n
asks_for written _ = true

abbrev after_call : ℕ → FileCall → Answer → ℕ
after_call written (write fd n) a = written + taken a.res
after_call written _ a = written

abbrev honest_answer : ℕ → FileCall → Answer → Bool
honest_answer written (write fd n) a = leb (taken a.res) n
honest_answer written _ a = true

-- The state is what has been written so far. Each `write` is for all that is missing, and the kernel takes no
-- more than it is given.
abbrev pub rest_of_buffer : Protocol FileCall ℕ
rest_of_buffer = record { allows = asks_for; after = after_call; is_honest = honest_answer }

abbrev Written : ℕ → ℤ → Type 0
Written written r = written ≡ buffer_size

-- After a `write` that returned `z`, where the rest of the loop is safe.
after_write-Safe :
    (n : ℕ) (fd z : ℤ) (size written : ℕ)
    → ((size' written' : ℕ)
        → written' + size' ≡ buffer_size
        → Safe rest_of_buffer written' (write_all n fd size') Written)
    → written + size ≡ buffer_size
    → leb (taken z) size ≡ true
    → Safe rest_of_buffer
        (written + taken z)
        (on_positive z (λ k. write_all n fd (size - k)) (write_all n fd size))
        Written
after_write-Safe n fd (pos zero) size written safe h fair =
    safe size (written + 0) (omega (arith, h))
after_write-Safe n fd (pos (suc k)) size written safe h fair =
    safe (size - suc k) (written + suc k) (omega (arith, h, leb→le _ _ fair))
after_write-Safe n fd (negsuc k) size written safe h fair =
    safe size (written + 0) (omega (arith, h))

write_all-Safe :
    (n : ℕ) (fd : ℤ) (size written : ℕ)
    → written + size ≡ buffer_size
    → Safe rest_of_buffer written (write_all n fd size) Written
unfolding write_all
write_all-Safe zero fd size written h = tt
write_all-Safe (suc n) fd size written h =
    Safe-if rest_of_buffer written (ltb 0 size) _ _ Written
      (λ more. (
        ground (arith, h, more),
        λ result fair. after_write-Safe n fd result.res size written (write_all-Safe n fd) h fair,
      ))
      (λ over. ground (arith, h, over))

child-Safe :
    (n : ℕ) (read_fd write_fd : ℤ) → Safe rest_of_buffer 0 (child n read_fd write_fd) Written
unfolding child
child-Safe n read_fd write_fd = (refl, λ a _. write_all-Safe n write_fd buffer_size 0 refl)

-- What the pipe takes in all these writes.
abbrev pub total : List Answer → ℕ
total [] = 0
total (a ∷ tape) = taken a.res + total tape

-- The loop after a `write` that returned `z`, where it ends for any smaller size.
after_write-ends :
    (n : ℕ) (fd z : ℤ) (size : ℕ) (tape : List Answer)
    → ((size' : ℕ) → size' ≤ total tape → returned_by (write_all n fd size') tape ≡ some (pos 0))
    → size ≤ taken z + total tape
    → returned_by (on_positive z (λ k. write_all n fd (size - k)) (write_all n fd size)) tape
      ≡ some (pos 0)
after_write-ends n fd (pos zero) size tape ends h = ends size (omega (arith, h))
after_write-ends n fd (pos (suc k)) size tape ends h = ends (size - suc k) (omega (arith, h))
after_write-ends n fd (negsuc k) size tape ends h = ends size (omega (arith, h))

write_all-ends :
    (n : ℕ) (fd : ℤ) (size : ℕ) (tape : List Answer)
    → length tape < n
    → size ≤ total tape
    → returned_by (write_all n fd size) tape ≡ some (pos 0)
unfolding write_all
write_all-ends zero fd size tape few h = absurd (omega (arith, few))
write_all-ends (suc n) fd size [] few h =
    let over : ltb 0 size ≡ false = ground (arith, h) in rw over refl
write_all-ends (suc n) fd size (a ∷ tape) few h = elim (Bool-cases (ltb 0 size)) [
  | inl more ↦ rw more (
      after_write-ends n fd a.res size tape
        (λ size'. write_all-ends n fd size' tape (omega (arith, few))) h)
  | inr over ↦ rw over refl
]

-- With a kernel that takes no more than it is given, and all in all as much as the buffer has, however often it
-- takes nothing: in as many rounds as there are answers, and one, the child returns 0; it has asked at each `write`
-- for exactly what was missing, and `BUFFER_SIZE` bytes are written.
pub child-writes :
    (n : ℕ) (read_fd write_fd : ℤ) (a : Answer) (tape : List Answer)
    → length tape < n
    → buffer_size ≤ total tape
    → honest rest_of_buffer 0 (run (child n read_fd write_fd) (a ∷ tape)) ≡ true
    → (returned_by (child n read_fd write_fd) (a ∷ tape) ≡ some (pos 0))
      × (obeys rest_of_buffer 0 (run (child n read_fd write_fd) (a ∷ tape)) ≡ true)
      × (final rest_of_buffer 0 (run (child n read_fd write_fd) (a ∷ tape)) ≡ buffer_size)
unfolding child
child-writes n read_fd write_fd a tape few enough fair =
    let safe = child-Safe n read_fd write_fd in
    let ends = write_all-ends n write_fd buffer_size tape few enough in
    (
      ends,
      Safe-obeys rest_of_buffer 0 (child n read_fd write_fd) Written (a ∷ tape) safe fair,
      Safe-final rest_of_buffer 0 (child n read_fd write_fd) Written (a ∷ tape) (pos 0) safe fair
          ends,
    )
