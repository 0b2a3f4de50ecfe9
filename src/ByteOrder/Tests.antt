-- ===== src/ByteOrder/Tests.antt =====
-- A run of socket/byte_order.c.
use learn_c_linux.Prelude.{ℕ, ◌*◌, ◌+◌, ◌/◌, ◌%◌, ◌≡◌, refl, some, List, [], ◌∷◌}
use learn_c_linux.ByteOrder.{main}

-- A machine that has the lowest byte first, with the two functions on it.
abbrev memory : ℕ → List ℕ
memory n = n % 256 ∷ n / 256 % 256 ∷ n / 65536 % 256 ∷ n / 16777216 % 256 ∷ 0 ∷ 0 ∷ 0 ∷ 0 ∷ []

abbrev turn16 : ℕ → ℕ
turn16 n = n % 256 * 256 + n / 256 % 256

abbrev turn32 : ℕ → ℕ
turn32 n = turn16 (n % 65536) * 65536 + turn16 (n / 65536 % 65536)

printed :
    main turn16 turn32 memory
    ≡ some (
      (205 ∷ 171 ∷ []) ∷ (171 ∷ 205 ∷ []) ∷ (205 ∷ 171 ∷ []) ∷ [],
      (120 ∷ 86 ∷ 52 ∷ 18 ∷ []) ∷ (18 ∷ 52 ∷ 86 ∷ 120 ∷ []) ∷ (120 ∷ 86 ∷ 52 ∷ 18 ∷ []) ∷ [],
    )
unfolding main
printed = refl
