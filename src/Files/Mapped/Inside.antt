-- ===== src/Files/Mapped/Inside.antt =====
-- linux_file/mmap.c: that the mapping is written inside the file.
use learn_c_linux.Prelude.{
  ℕ, zero, suc, ◌+◌, ◌≡◌, ◌≢◌, refl, ◌==◌, ◌&&◌, ◌||◌, leb, ltb, Bool, true, false, if◌then◌else◌,
  List, arith,
}
use learn_c_linux.Prelude.Int.{ℤ, pos, negsuc}
use learn_c_linux.Sys.{Answer, Protocol, run, obeys, honest}
use learn_c_linux.Sys.Rule.{Safe, Safe-obeys, Safe-on_minus_one}
use learn_c_linux.Files.Calls.{FileCall, lseek, write, mmap, store, munmap}
use learn_c_linux.Files.Mapped.{main, write_mapped}

-- The size of the file, the place in it, and the size of the mapping.
pub record Mapping : Type 0 where
  pub size : ℕ
  pub place : ℕ
  pub mapped : ℕ

abbrev is_ok : ℤ → Bool
is_ok (pos n) = true
is_ok (negsuc n) = false

abbrev is_minus_one : ℤ → Bool
is_minus_one (negsuc n) = n == 0
is_minus_one (pos n) = false

-- What `mmap` returns is an address when it is not -1.
address_ok : (z : ℤ) → is_ok z || is_minus_one z ≡ true → z ≢ negsuc 0 → is_ok z ≡ true
address_ok (pos n) fair ne = refl
address_ok (negsuc zero) fair ne = absurd (ne refl)
address_ok (negsuc (suc n)) fair ne = absurd (ground (arith, fair))

abbrev larger : ℕ → ℕ → ℕ
larger a b = if ltb a b then b else a

abbrev after_call : Mapping → FileCall → Answer → Mapping
after_call m (lseek fd n) a = record m { place = n }
after_call m (write fd n) a = record m { size = larger m.size (m.place + n); place = m.place + n }
after_call m (mmap fd n) a = record m { mapped = if is_ok a.res then n else 0 }
after_call m (munmap n) a = record m { mapped = 0 }
after_call m _ a = m

-- A copy stays inside the mapping, and the mapping inside the file there.
abbrev allows_call : Mapping → FileCall → Bool
allows_call m (store at n) = leb (at + n) m.mapped && leb (at + n) m.size
allows_call m _ = true

-- The place is found and the byte written: what the program does not look at.
abbrev honest_answer : Mapping → FileCall → Answer → Bool
honest_answer m (lseek fd n) a = is_ok a.res
honest_answer m (write fd n) a = is_ok a.res
honest_answer m (mmap fd n) a = is_ok a.res || is_minus_one a.res
honest_answer m _ a = true

abbrev pub mapping : Protocol FileCall Mapping
mapping = record { allows = allows_call; after = after_call; is_honest = honest_answer }

write_mapped-Safe : (m : Mapping) (fd : ℤ) → Safe mapping m (write_mapped fd) (λ m' r. Unit)
unfolding write_mapped
write_mapped-Safe m fd = (
  refl,
  λ a _. (
    refl,
    λ b _. (
      refl,
      λ ptr fair.
          Safe-on_minus_one mapping _ ptr.res _ _ _ (λ e. (refl, λ _ _. tt))
            λ ne. (
              rw (address_ok ptr.res fair ne) (ground arith),
              λ _ _. (refl, λ _ _. (refl, λ _ _. tt)),
            ),
    ),
  ),
)

main-Safe : (m : Mapping) → Safe mapping m main (λ m' r. Unit)
unfolding main
main-Safe m = (
  refl,
  λ fd _.
      Safe-on_minus_one mapping m fd.res _ _ _ (λ e. (refl, λ fd' _. write_mapped-Safe m fd'.res))
        λ ne. write_mapped-Safe m fd.res,
)

-- On any file, when the kernel finds the place and writes the byte and `mmap` gives a mapping or -1, `main` copies
-- into the mapping and into the file behind it only.
pub main-obeys-mapping :
    (m : Mapping) (tape : List Answer)
    → honest mapping m (run main tape) ≡ true
    → obeys mapping m (run main tape) ≡ true
main-obeys-mapping m tape fair = Safe-obeys mapping m main (λ m' r. Unit) tape (main-Safe m) fair
