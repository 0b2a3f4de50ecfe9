-- ===== src/TwoSum.antt =====
-- test.c: the search for two numbers of an array that add up to a target.
pub mod First
mod Tests
use learn_c_linux.Prelude.{
  ℕ, zero, suc, ◌+◌, ◌-◌, ◌^◌, Bool, true, false, ltb, leb, ◌==◌, if◌then◌else◌, Option, none, some,
  List, get_elem?,
}
use learn_c_linux.Prelude.Int.{ℤ, pos, negsuc, ◌+ℤ◌, is_int}

abbrev pub eqb_ℤ : ℤ → ℤ → Bool
eqb_ℤ (pos a) (pos b) = a == b
eqb_ℤ (negsuc a) (negsuc b) = a == b
eqb_ℤ _ _ = false

-- `nums[i] + nums[j]`, or `none` where an access is outside the array or the sum is no `int`.
unfoldable pub add_at : List ℤ → ℕ → ℕ → Option ℤ
add_at nums i j = elim (get_elem? nums i) [
  | none ↦ none
  | some a ↦ elim (get_elem? nums j) [
    | none ↦ none
    | some b ↦ if is_int (a +ℤ b) then some (a +ℤ b) else none
  ]
]

-- The inner loop, with the rounds that are left and `j`: what is found.
unfoldable pub search_from : List ℤ → ℤ → ℕ → ℕ → ℕ → Option (Option (ℕ × ℕ))
unfolding add_at
search_from nums target i zero j = some none
search_from nums target i (suc n) j =
    let rest = search_from nums target i n (j + 1) in
    elim (add_at nums i j) [
      | none ↦ none
      | some s ↦ if eqb_ℤ s target then some (some (i, j)) else rest
    ]

-- The outer loop, with the rounds that are left and `i`.
unfoldable pub search : List ℤ → ℕ → ℤ → ℕ → ℕ → Option (Option (ℕ × ℕ))
unfolding search_from
search nums nums_size target zero i = some none
search nums nums_size target (suc n) i =
    let rest = search nums nums_size target n (i + 1) in
    elim (search_from nums target i (nums_size - (i + 1)) (i + 1)) [
      | none ↦ none
      | some none ↦ rest
      | some (some p) ↦ some (some p)
    ]

-- The contents of `returnSize` before and after, where `none` is the null pointer.
unfoldable pub two_sum : List ℤ → ℕ → ℤ → Option (ℕ × ℕ) → Option (Option (ℕ × ℕ))
unfolding search
two_sum nums nums_size target return_size = elim (search nums nums_size target nums_size 0) [
  | none ↦ none
  | some none ↦ some return_size
  | some (some p) ↦ elim return_size [ none ↦ none | some old ↦ some (some p) ]
]
