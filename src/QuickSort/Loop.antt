-- ===== src/QuickSort/Loop.antt =====
-- Rounds of the `while` loop of learn_c/quick_sort.c.
use learn_c_linux.Prelude.{
  ℕ, zero, suc, ◌+◌, ◌-◌, ◌≤◌, ◌<◌, ◌≡◌, refl, ◌∙◌, false, inl, inr, List, arith, length, ltb,
  Bool-cases, Yields, yields, Yields-mono, Yields-some, ℕ_discrete,
}
use learn_c_linux.Prelude.Int.{ℤ, ltb_ℤ}
use learn_c_linux.QuickSort.{Split, exchange_step, partition_step, partition}
use learn_c_linux.QuickSort.Scan.{at}
use learn_c_linux.QuickSort.Partition.{
  SameItems, Exchanged, Exchanged-others, exchange_value-Exchanged, Sentinels, Loop, Up, scan_up-Up,
  Down, scan_down-Down, irrefl,
}

-- After an exchange each of its places stops the inner loop that comes from the other side.
module _ (middle : ℕ) {arr : List ℤ} {i j : ℕ} {out : List ℤ} (e : Exchanged arr i j out) where
  up_stops :
      ltb_ℤ (at arr i) (at arr middle) ≡ false
      → ltb_ℤ (at arr middle) (at arr j) ≡ false
      → ltb_ℤ (at out j) (at out middle) ≡ false
  up_stops hi hj = elim (ℕ_discrete middle j) [
    | yes here ↦ rw here (irrefl (at out j))
    | no away ↦ elim (ℕ_discrete middle i) [
      | yes there ↦ rw (e.second, there, e.first) (rw there at hj)
      | no other ↦ rw (e.second, Exchanged-others arr i j out middle e other away) hi
    ]
  ]

  down_stops :
      ltb_ℤ (at arr i) (at arr middle) ≡ false
      → ltb_ℤ (at arr middle) (at arr j) ≡ false
      → ltb_ℤ (at out middle) (at out i) ≡ false
  down_stops hi hj = elim (ℕ_discrete middle i) [
    | yes here ↦ rw here (irrefl (at out i))
    | no away ↦ elim (ℕ_discrete middle j) [
      | yes there ↦ rw (e.first, there, e.second) (rw there at hi)
      | no other ↦ rw (e.first, Exchanged-others arr i j out middle e away other) hj
    ]
  ]

-- What a round leaves.
pub record Round (left right middle : ℕ) (s s' : Split) : Type 0 where
  pub loop : Loop left right middle s'
  pub size : length s'.arr ≡ length s.arr
  pub same : SameItems s'.arr s.arr
  pub closer : s'.j1 - s'.i < s.j1 - s.i

module _ (left right middle : ℕ) (s : Split) (l : Loop left right middle s) (lt : s.i < s.j1) where
  module _ (i j1 : ℕ) (u : Up left right middle s i) (d : Down left right middle s j1) where
    exchange-Round :
        (out : List ℤ)
        → i < j1
        → Exchanged s.arr i (j1 - 1) out
        → Round left right middle s (record { arr = out; i = i + 1; j1 = j1 - 1 })
    exchange-Round out more e = record {
      loop = record {
        mid_left = l.mid_left;
        mid_right = l.mid_right;
        size = omega (arith, l.size, e.size);
        left_le = omega (arith, l.left_le, u.from_start);
        j1_le = omega (arith, l.j1_le, d.from_start);
        i_le = omega (arith, u.in_arr);
        stops = inl (record {
          up = inr (omega (arith, d.from_start, l.j1_le), up_stops middle e u.ends d.ends);
          down = inr (
            omega (arith, l.left_le, u.from_start),
            let back : i + 1 - 1 ≡ i = omega arith in rw back (down_stops middle e u.ends d.ends),
          );
        });
        moved = inr (omega (arith, l.left_le, u.from_start), omega (arith, d.from_start, l.j1_le));
      };
      size = e.size;
      same = e.same;
      closer = omega (arith, u.from_start, d.from_start);
    }

    stop-Round : j1 ≤ i → Round left right middle s (record { arr = s.arr; i = i; j1 = j1 })
    stop-Round done = record {
      loop = record {
        mid_left = l.mid_left;
        mid_right = l.mid_right;
        size = l.size;
        left_le = omega (arith, l.left_le, u.from_start);
        j1_le = omega (arith, l.j1_le, d.from_start);
        i_le = omega (arith, u.in_arr);
        stops = inr done;
        moved =
            omega (
              arith, l.moved, l.mid_left, l.mid_right, u.bound, u.from_start, d.bound, d.from_start,
            );
      };
      size = refl;
      same = λ w. refl;
      closer = omega arith;
    }

    exchange_step-Round : Yields (Round left right middle s) (exchange_step s.arr i j1)
    unfolding exchange_step
    exchange_step-Round = elim (Bool-cases (ltb i j1)) [
      | inl more ↦
          let (out, run, e) = Yields-some (
            exchange_value-Exchanged s.arr i (j1 - 1) (omega (arith, u.in_arr, l.size))
              (omega (arith, d.from_start, l.j1_le, l.size))) in
          rw (more, run) (yields (exchange-Round out (ground arith) e))
      | inr done ↦ rw done (yields (stop-Round (ground arith)))
    ]

  partition_step-Round :
      Sentinels left right middle s → Yields (Round left right middle s) (partition_step middle s)
  unfolding partition_step
  partition_step-Round st =
      let (i, run_i, u) = Yields-some (scan_up-Up left right middle s l lt st) in
      let (j1, run_j, d) = Yields-some (scan_down-Down left right middle s l lt st) in
      rw (run_i, run_j) (exchange_step-Round i j1 u d)

-- The loop ends with both indices inside the range and moved, and with the same elements.
pub record Parted (left right : ℕ) (s s' : Split) : Type 0 where
  pub size : length s'.arr ≡ length s.arr
  pub same : SameItems s'.arr s.arr
  pub i_moved : left < s'.i
  pub j_moved : s'.j1 ≤ right

pub partition-Parted :
    (f left right middle : ℕ) (s : Split)
    → Loop left right middle s
    → s.j1 - s.i < f
    → Yields (Parted left right s) (partition f middle s)
unfolding partition
partition-Parted zero left right middle s l fuel = absurd (omega arith)
partition-Parted (suc f) left right middle s l fuel = elim (Bool-cases (ltb s.i s.j1)) [
  | inl more ↦
      let lt : s.i < s.j1 = ground arith in
      let st : Sentinels left right middle s = elim l.stops [
        | inl st ↦ st
        | inr over ↦ absurd (omega arith)
      ] in
      let (s', run, r) = Yields-some (partition_step-Round left right middle s l lt st) in
      rw (more, partition)
        (rw (run, partition)
          (Yields-mono (partition-Parted f left right middle s' r.loop (omega (arith, r.closer)))
            λ out p. record {
              size = p.size ∙ r.size;
              same = λ w. p.same w ∙ r.same w;
              i_moved = p.i_moved;
              j_moved = p.j_moved;
            }))
  | inr done ↦
      rw (done, partition)
        (yields (record {
          size = refl;
          same = λ w. refl;
          i_moved = ground (arith, l.moved, l.mid_left, l.mid_right);
          j_moved = ground (arith, l.moved, l.mid_left, l.mid_right);
        }))
]
