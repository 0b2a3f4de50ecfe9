-- ===== src/QuickSort/Scan.antt =====
-- The two inner loops of learn_c/quick_sort.c stop inside the array when an element stops them.
use learn_c_linux.Prelude.{
  ℕ, zero, suc, ◌+◌, ◌-◌, ◌≤◌, ◌<◌, ◌≡◌, ◌≢◌, ap, false, some, inl, inr, List, arith, length,
  get_or, get_elem?-get_or, Bool-cases, Yields, yields, Yields-mono,
}
use learn_c_linux.Prelude.Int.{ℤ, pos, ltb_ℤ}
use learn_c_linux.QuickSort.{is_below, scan_up, scan_down}

abbrev pub at : List ℤ → ℕ → ℤ
at arr k = get_or arr k (pos 0)

is_below-at :
    (arr : List ℤ) (i k : ℕ)
    → i < length arr
    → k < length arr
    → is_below arr i k ≡ some (ltb_ℤ (at arr i) (at arr k))
unfolding is_below
is_below-at arr i k hi hk =
    rw (get_elem?-get_or arr i (pos 0) hi, get_elem?-get_or arr k (pos 0) hk)

-- Where the upward scan ends, given an element at `stop` that is not below the middle one.
pub record ScannedUp (arr : List ℤ) (middle i stop i' : ℕ) : Type 0 where
  pub from_start : i ≤ i'
  pub to_stop : i' ≤ stop
  pub ends : ltb_ℤ (at arr i') (at arr middle) ≡ false

pub scan_up-ScannedUp :
    (f : ℕ) (arr : List ℤ) (middle i stop : ℕ)
    → i ≤ stop
    → stop < length arr
    → middle < length arr
    → ltb_ℤ (at arr stop) (at arr middle) ≡ false
    → stop < i + f
    → Yields (ScannedUp arr middle i stop) (scan_up f arr middle i)
unfolding scan_up
scan_up-ScannedUp zero arr middle i stop le in_arr mid h fuel = absurd (omega arith)
scan_up-ScannedUp (suc f) arr middle i stop le in_arr mid h fuel =
    elim (Bool-cases (ltb_ℤ (at arr i) (at arr middle))) [
      | inl below ↦
          let further : i ≢ stop = λ e. cc (ap (λ k. ltb_ℤ (at arr k) (at arr middle)) e) in
          rw (scan_up, is_below-at arr i middle (omega arith) mid, below)
            (Yields-mono
              (scan_up-ScannedUp f arr middle (i + 1) stop (omega arith) in_arr mid h (omega arith))
              λ i' r. ground (arith, r))
      | inr there ↦
          rw (scan_up, is_below-at arr i middle (omega arith) mid, there)
            (yields (record { from_start = omega arith; to_stop = le; ends = there }))
    ]

-- Where the downward scan ends, as `j + 1`.
pub record ScannedDown (arr : List ℤ) (middle j1 stop j1' : ℕ) : Type 0 where
  pub from_start : j1' ≤ j1
  pub to_stop : stop < j1'
  pub ends : ltb_ℤ (at arr middle) (at arr (j1' - 1)) ≡ false

pub scan_down-ScannedDown :
    (arr : List ℤ) (middle j1 stop : ℕ)
    → stop < j1
    → j1 ≤ length arr
    → middle < length arr
    → ltb_ℤ (at arr middle) (at arr stop) ≡ false
    → Yields (ScannedDown arr middle j1 stop) (scan_down arr middle j1)
unfolding scan_down
scan_down-ScannedDown arr middle zero stop lt in_arr mid h = absurd (omega arith)
scan_down-ScannedDown arr middle (suc j) stop lt in_arr mid h =
    elim (Bool-cases (ltb_ℤ (at arr middle) (at arr j))) [
      | inl above ↦
          let further : j ≢ stop = λ e. cc (ap (λ k. ltb_ℤ (at arr middle) (at arr k)) e) in
          rw (scan_down, is_below-at arr middle j mid (omega arith), above)
            (Yields-mono (scan_down-ScannedDown arr middle j stop (omega arith) (omega arith) mid h)
              λ j1' r. ground (arith, r))
      | inr there ↦
          let last : suc j - 1 ≡ j = omega arith in
          rw (scan_down, is_below-at arr middle j mid (omega arith), there)
            (yields (record { from_start = omega arith; to_stop = lt; ends = rw last there }))
    ]
