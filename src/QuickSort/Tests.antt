-- ===== src/QuickSort/Tests.antt =====
-- Runs of learn_c/quick_sort.c, and its theorems at concrete inputs.
use learn_c_linux.Prelude.{◌≡◌, refl, some, List, [], ◌∷◌, arith, map, Yields}
use learn_c_linux.Prelude.Int.{ℤ, pos, negsuc}
use learn_c_linux.QuickSort.{sort}
use learn_c_linux.QuickSort.Sort.{Rearranged, sort-Rearranged, sort-unsorted}

-- The array of `main`, which `sort` does sort.
abbrev main_array : List ℤ
main_array = map pos (15 ∷ 23 ∷ 38 ∷ 75 ∷ 42 ∷ 96 ∷ 13 ∷ 17 ∷ 93 ∷ 85 ∷ 45 ∷ 65 ∷ 69 ∷ 41 ∷ [])

main_runs :
    sort 14 main_array 0 13
    ≡ some (map pos (13 ∷ 15 ∷ 17 ∷ 23 ∷ 38 ∷ 41 ∷ 42 ∷ 45 ∷ 65 ∷ 69 ∷ 75 ∷ 85 ∷ 93 ∷ 96 ∷ []))
unfolding sort
main_runs = refl

abbrev mixed : List ℤ
mixed = pos 3 ∷ negsuc 4 ∷ pos 0 ∷ []

sort-Rearranged_example : Yields (Rearranged mixed) (sort 3 mixed 0 2)
sort-Rearranged_example =
    sort-Rearranged 3 mixed 0 2 (omega arith) (omega arith) (omega arith) (omega arith)

sort-unsorted_example :
    sort 4 (pos 1 ∷ pos 2 ∷ negsuc 0 ∷ negsuc 0 ∷ []) 0 3
    ≡ some (negsuc 0 ∷ pos 1 ∷ negsuc 0 ∷ pos 2 ∷ [])
sort-unsorted_example = sort-unsorted (pos 1) (pos 2) (negsuc 0) refl refl
