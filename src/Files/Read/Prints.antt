-- ===== src/Files/Read/Prints.antt =====
-- linux_file/read_file.c: what it prints.
use learn_c_linux.Prelude.{ℕ, suc, ◌≡◌, refl, ap, ap₂, some, List, [], ◌∷◌, ◌++◌, length, take}
use learn_c_linux.Prelude.Int.{ℤ, pos, negsuc}
use learn_c_linux.Sys.{Answer, returned, run, result}
use learn_c_linux.Files.Calls.{FileCall, print}
use learn_c_linux.Files.Read.{read_all}

abbrev pub printed : List (FileCall × Answer) → List ℕ
printed [] = []
printed ((print bytes, a) ∷ t) = bytes ++ printed t
printed ((c, a) ∷ t) = printed t

-- The parts in which the kernel hands the file over, none of them empty: the first byte and the rest of each.
abbrev pub contents : List (ℕ × List ℕ) → List ℕ
contents [] = []
contents ((b, bytes) ∷ parts) = (b ∷ bytes) ++ contents parts

-- The answers, with what `printf` returns after each part, and `last` in place of a further part.
abbrev pub handed : List (ℕ × List ℕ) → Answer → List Answer
handed [] last = last ∷ returned (pos 0) ∷ []
handed ((b, bytes) ∷ parts) last =
    record { res = pos (length (b ∷ bytes)); bytes = b ∷ bytes }
    ∷ returned (pos 0)
    ∷ handed parts last

take-length : (xs : List ℕ) → take (length xs) xs ≡ xs
take-length [] = refl
take-length (x ∷ xs) = ap (λ t. x ∷ t) (take-length xs)

-- In whatever parts the kernel hands the file over, the program prints its bytes in order; at the end of the file
-- it returns 0, and after a `read` that fails, -1.
pub read_all-prints :
    (fd : ℤ) (parts : List (ℕ × List ℕ))
    → let eof = returned (pos 0) in
      let failed = returned (negsuc 0) in
      (printed (run (read_all (suc (length parts)) fd) (handed parts eof)) ≡ contents parts)
      × (result (read_all (suc (length parts)) fd) (handed parts eof) ≡ some (pos 0))
      × (printed (run (read_all (suc (length parts)) fd) (handed parts failed)) ≡ contents parts)
      × (result (read_all (suc (length parts)) fd) (handed parts failed) ≡ some (negsuc 0))
unfolding read_all
read_all-prints fd [] = (refl, refl, refl, refl)
read_all-prints fd ((b, bytes) ∷ parts) =
    let (whole, ends, part, fails) = read_all-prints fd parts in
    (
      ap₂ (λ x y. b ∷ (x ++ y)) (take-length bytes) whole,
      ends,
      ap₂ (λ x y. b ∷ (x ++ y)) (take-length bytes) part,
      fails,
    )
