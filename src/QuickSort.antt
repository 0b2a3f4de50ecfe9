-- ===== src/QuickSort.antt =====
-- learn_c/quick_sort.c. `none` is an access outside the array, an index sum that `int` cannot hold, or
-- no fuel left. `j` may fall to -1, so it is kept as `j1`, which is `j + 1`.
pub mod Scan
pub mod Partition
pub mod Loop
pub mod Sort
mod Tests
use learn_c_linux.Prelude.{
  ℕ, zero, suc, ◌+◌, ◌-◌, ◌/◌, ◌^◌, Bool, true, false, Option, none, some, List, ltb, leb,
  if◌then◌else◌, length, get_elem?, set, ◌>>=◌,
}
use learn_c_linux.Prelude.Int.{ℤ, ltb_ℤ}

unfoldable pub exchange_value : List ℤ → ℕ → ℕ → Option (List ℤ)
exchange_value arr a b = do
  temp ← get_elem? arr a
  v ← get_elem? arr b
  some (set (set arr a v) b temp)

-- `arr[i] < arr[middle]`
pub is_below : List ℤ → ℕ → ℕ → Option Bool
is_below arr i k = do x ← get_elem? arr i; y ← get_elem? arr k; some (ltb_ℤ x y)

-- `for(; arr[i] < arr[middle]; i ++){}`
unfoldable pub scan_up : ℕ → List ℤ → ℕ → ℕ → Option ℕ
unfolding is_below
scan_up zero arr middle i = none
scan_up (suc f) arr middle i = elim (is_below arr i middle) [
  | none ↦ none
  | some true ↦ scan_up f arr middle (i + 1)
  | some false ↦ some i
]

-- `for(; arr[j] > arr[middle]; j --){}`
unfoldable pub scan_down : List ℤ → ℕ → ℕ → Option ℕ
unfolding is_below
scan_down arr middle zero = none
scan_down arr middle (suc j) = elim (is_below arr middle j) [
  | none ↦ none
  | some true ↦ scan_down arr middle j
  | some false ↦ some (suc j)
]

-- The array and the two indices in the `while` loop of `sort`.
pub record Split : Type 0 where
  pub arr : List ℤ
  pub i : ℕ
  pub j1 : ℕ

-- The `if` of the loop's body.
unfoldable pub exchange_step : List ℤ → ℕ → ℕ → Option Split
unfolding exchange_value
exchange_step arr i j1 =
    if ltb i j1
    then (exchange_value arr i (j1 - 1) >>= λ arr'.
        some (record { arr = arr'; i = i + 1; j1 = j1 - 1 }))
    else some (record { arr = arr; i = i; j1 = j1 })

-- The body of the loop.
unfoldable pub partition_step : ℕ → Split → Option Split
unfolding scan_up scan_down exchange_step
partition_step middle s = do
  i ← scan_up (length s.arr) s.arr middle s.i
  j1 ← scan_down s.arr middle s.j1
  exchange_step s.arr i j1

-- `while (i <= j)`
unfoldable pub partition : ℕ → ℕ → Split → Option Split
unfolding partition_step
partition zero middle s = none
partition (suc f) middle s = elim (ltb s.i s.j1) [
  | false ↦ some s
  | true ↦ elim (partition_step middle s) [ none ↦ none | some s' ↦ partition f middle s' ]
]

-- The body of `sort`, with `again` for the calls that it makes of itself.
unfoldable pub sort_body : (List ℤ → ℕ → ℕ → Option (List ℤ)) → List ℤ → ℕ → ℕ → Option (List ℤ)
unfolding partition
sort_body again arr left right = if leb (2 ^ 31) (left + right) then none else (do
  s ←
      partition (length arr + 2) ((left + right) / 2)
        (record { arr = arr; i = left; j1 = right + 1 })
  arr' ← if ltb (left + 1) s.j1 then again s.arr left (s.j1 - 1) else some s.arr
  if ltb s.i right then again arr' s.i right else some arr')

-- `sort`, with calls at most `f` deep.
unfoldable pub sort : ℕ → List ℤ → ℕ → ℕ → Option (List ℤ)
unfolding sort_body
sort zero arr left right = none
sort (suc f) arr left right = sort_body (sort f) arr left right
