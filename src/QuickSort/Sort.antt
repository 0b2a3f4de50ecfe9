-- ===== src/QuickSort/Sort.antt =====
-- learn_c/quick_sort.c as a whole: `sort` ends inside the array with the same elements, and does not
-- always sort them.
use learn_c_linux.Prelude.{
  ℕ, zero, suc, ◌+◌, ◌-◌, ◌/◌, ◌^◌, ◌≤◌, ◌<◌, ◌≡◌, refl, ◌∙◌, Bool, true, false, Option, some, inl,
  List, [], ◌∷◌, arith, length, ltb, leb, Yields, yields, Yields-mono, Yields-some, if◌then◌else◌,
}
use learn_c_linux.Prelude.Int.{ℤ, ltb_ℤ}
use learn_c_linux.QuickSort.{Split, sort}
use learn_c_linux.QuickSort.Partition.{SameItems, Loop, irrefl}
use learn_c_linux.QuickSort.Loop.{partition-Parted}

pub record Rearranged (arr out : List ℤ) : Type 0 where
  pub size : length out ≡ length arr
  pub same : SameItems out arr

Rearranged-refl : (arr : List ℤ) → Rearranged arr arr
Rearranged-refl arr = record { size = refl; same = λ w. refl }

Rearranged-trans : {a b c : List ℤ} → Rearranged a b → Rearranged b c → Rearranged a c
Rearranged-trans p q = record { size = q.size ∙ p.size; same = λ w. q.same w ∙ p.same w }

start-Loop :
    (arr : List ℤ) (left right : ℕ)
    → left ≤ right
    → right < length arr
    → Loop left right ((left + right) / 2) (record { arr = arr; i = left; j1 = right + 1 })
start-Loop arr left right le in_arr = record {
  mid_left = omega arith;
  mid_right = omega arith;
  size = in_arr;
  left_le = omega arith;
  j1_le = omega arith;
  i_le = omega arith;
  stops = inl (record { up = inl (omega arith); down = inl (omega arith) });
  moved = inl (refl, omega arith);
}

-- A call that is made only under a test.
if_called :
    (b : Bool) (arr : List ℤ) (o : Option (List ℤ))
    → (b ≡ true → Yields (Rearranged arr) o)
    → Yields (Rearranged arr) (if b then o else some arr)
if_called true arr o h = h refl
if_called false arr o h = yields (Rearranged-refl arr)

-- `sort` on a range of an array with at most 2 ^ 30 elements ends, with calls at most
-- `right - left + 1` deep: it reads and writes inside the array only, its index sums fit an `int`, and
-- the array it leaves has the same elements, each as often.
pub sort-Rearranged :
    (f : ℕ) (arr : List ℤ) (left right : ℕ)
    → left ≤ right
    → right < length arr
    → length arr ≤ 2 ^ 30
    → right - left < f
    → Yields (Rearranged arr) (sort f arr left right)
unfolding sort
sort-Rearranged zero arr left right le in_arr small fuel = absurd (omega arith)
sort-Rearranged (suc f) arr left right le in_arr small fuel =
    let start : Split = record { arr = arr; i = left; j1 = right + 1 } in
    let fits : leb (2 ^ 31) (left + right) ≡ false = ground arith in
    let (s, run, p) = Yields-some (
      partition-Parted (length arr + 2) left right ((left + right) / 2) start
        (start-Loop arr left right le in_arr) (omega arith)) in
    let low : Yields (Rearranged s.arr)
        (if ltb (left + 1) s.j1 then sort f s.arr left (s.j1 - 1) else some s.arr) =
      if_called (ltb (left + 1) s.j1) s.arr _ (λ b.
        sort-Rearranged f s.arr left (s.j1 - 1) (ground arith) (omega (arith, p.size, p.j_moved))
          (omega (arith, p.size)) (ground (arith, p.j_moved))) in
    let (arr', run', r) = Yields-some low in
    let high : Yields (Rearranged arr')
        (if ltb s.i right then sort f arr' s.i right else some arr') =
      if_called (ltb s.i right) arr' _ (λ b.
        sort-Rearranged f arr' s.i right (ground arith) (omega (arith, r.size, p.size))
          (omega (arith, r.size, p.size)) (ground (arith, p.i_moved))) in
    rw (fits, run)
      (rw run' (
        Yields-mono high λ out q.
          Rearranged-trans (Rearranged-trans (record { size = p.size; same = p.same }) r) q))

-- Two distinct numbers in order, then a smaller one twice: `sort` leaves the first of the two before the
-- smaller one, so the result is not sorted.
pub sort-unsorted :
    (a b c : ℤ)
    → ltb_ℤ c a ≡ true
    → ltb_ℤ a b ≡ true
    → sort 4 (a ∷ b ∷ c ∷ c ∷ []) 0 3 ≡ some (c ∷ a ∷ c ∷ b ∷ [])
unfolding sort
sort-unsorted a b c ca ab =
    let cb : ltb_ℤ c b ≡ true = ground arith in
    let ac : ltb_ℤ a c ≡ false = ground arith in
    let ba : ltb_ℤ b a ≡ false = ground arith in
    let bc : ltb_ℤ b c ≡ false = ground arith in ground (arith, irrefl a, irrefl b, irrefl c)
