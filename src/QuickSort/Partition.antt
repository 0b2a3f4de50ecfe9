-- ===== src/QuickSort/Partition.antt =====
-- The `while` loop of learn_c/quick_sort.c: it ends, it stays inside the array, and it only exchanges
-- elements. `arr[middle]` is read anew in each round and may change, so it is the element last
-- exchanged at either end, and not one fixed pivot, that stops the inner loops.
use learn_c_linux.Prelude.{
  ℕ, suc, ◌-◌, ◌≤◌, ◌<◌, ◌≡◌, ◌≢◌, ◌⊎◌, ap, sym, ◌∙◌, false, some, inl, inr, List, arith, length,
  set, length-set, get_elem?-get_or, get_or-set_self, get_or-set_ne, Yields, yields, Yields-mono,
  total, total-set, ℕ_discrete, dec_le,
}
use learn_c_linux.Prelude.Int.{ℤ, pos, ltb_ℤ}
use learn_c_linux.QuickSort.{exchange_value, Split, scan_up, scan_down}
use learn_c_linux.QuickSort.Scan.{at, scan_up-ScannedUp, scan_down-ScannedDown}

-- The same elements, each as often: every weighted sum agrees.
abbrev pub SameItems : List ℤ → List ℤ → Type 0
SameItems xs ys = (w : ℤ → ℕ) → total w xs ≡ total w ys

pub record Exchanged (arr : List ℤ) (a b : ℕ) (out : List ℤ) : Type 0 where
  pub size : length out ≡ length arr
  pub first : at out a ≡ at arr b
  pub second : at out b ≡ at arr a
  pub others : (k : ℕ) → (k ≡ a) ⊎ ((k ≡ b) ⊎ (at out k ≡ at arr k))
  pub same : SameItems out arr

pub Exchanged-others :
    (arr : List ℤ) (a b : ℕ) (out : List ℤ) (k : ℕ)
    → Exchanged arr a b out
    → k ≢ a
    → k ≢ b
    → at out k ≡ at arr k
Exchanged-others arr a b out k e na nb = elim (e.others k) [
  | inl i ↦ absurd (na i)
  | inr (inl i) ↦ absurd (nb i)
  | inr (inr same) ↦ same
]

-- After the first write `arr[b]` is what it was, also where `a` is `b`.
at-set : (arr : List ℤ) (a b : ℕ) → a < length arr → at (set arr a (at arr b)) b ≡ at arr b
at-set arr a b ha = elim (ℕ_discrete a b) [
  | yes e ↦ rw (← e) (get_or-set_self arr a (at arr a) (pos 0) ha)
  | no ne ↦ get_or-set_ne arr a b (at arr b) (pos 0) ne
]

-- `exchange_value` swaps two elements and changes no other.
pub exchange_value-Exchanged :
    (arr : List ℤ) (a b : ℕ)
    → a < length arr
    → b < length arr
    → Yields (Exchanged arr a b) (exchange_value arr a b)
unfolding exchange_value
exchange_value-Exchanged arr a b ha hb =
    let x = at arr a in
    let y = at arr b in
    let got_a = get_elem?-get_or arr a (pos 0) ha in
    let got_b = get_elem?-get_or arr b (pos 0) hb in
    let mid = set arr a y in
    let size : length mid ≡ length arr = length-set arr a y in
    rw (got_a, got_b)
      (yields (record {
        size = length-set mid b x ∙ size;
        first = elim (ℕ_discrete a b) [
          | yes e ↦
              ap (at (set mid b x)) e
              ∙ (get_or-set_self mid b x (pos 0) (omega arith) ∙ ap (at arr) e)
          | no ne ↦
              get_or-set_ne mid b a x (pos 0) (λ e. ne (sym e)) ∙ get_or-set_self arr a y (pos 0) ha
        ];
        second = get_or-set_self mid b x (pos 0) (omega arith);
        others = λ k. elim (ℕ_discrete k a) [
          | yes e ↦ inl e
          | no na ↦ elim (ℕ_discrete k b) [
            | yes e ↦ inr (inl e)
            | no nb ↦ inr (
                inr (
                  get_or-set_ne mid b k x (pos 0) (λ e. nb (sym e))
                  ∙ get_or-set_ne arr a k y (pos 0) (λ e. na (sym e))))
          ]
        ];
        same = λ w. omega (
          arith,
          total-set w arr a x y got_a,
          total-set w mid b y x
              (get_elem?-get_or mid b (pos 0) (omega arith) ∙ ap some (at-set arr a b ha)),
        );
      }))

-- What stops the inner loops: the middle element while the index has not passed it, and then the
-- element that the other index has just left.
pub record Sentinels (left right middle : ℕ) (s : Split) : Type 0 where
  pub up : (s.i ≤ middle) ⊎ ((s.j1 ≤ right) × (ltb_ℤ (at s.arr s.j1) (at s.arr middle) ≡ false))
  pub down :
      (middle < s.j1) ⊎ ((left < s.i) × (ltb_ℤ (at s.arr middle) (at s.arr (s.i - 1)) ≡ false))

-- What holds at the head of the loop: nothing is exchanged yet, or both indices have moved.
pub record Loop (left right middle : ℕ) (s : Split) : Type 0 where
  pub mid_left : left ≤ middle
  pub mid_right : middle ≤ right
  pub size : right < length s.arr
  pub left_le : left ≤ s.i
  pub j1_le : s.j1 ≤ suc right
  pub i_le : s.i ≤ suc right
  pub stops : Sentinels left right middle s ⊎ (s.j1 ≤ s.i)
  pub moved : ((s.i ≡ left) × (s.j1 ≡ suc right)) ⊎ ((left < s.i) × (s.j1 ≤ right))

-- The upward scan from the head of the loop.
pub record Up (left right middle : ℕ) (s : Split) (i' : ℕ) : Type 0 where
  pub from_start : s.i ≤ i'
  pub in_arr : i' ≤ right
  pub bound : (i' ≤ middle) ⊎ ((middle < s.i) × (i' ≤ s.j1) × (s.j1 ≤ right))
  pub ends : ltb_ℤ (at s.arr i') (at s.arr middle) ≡ false

pub irrefl : (x : ℤ) → ltb_ℤ x x ≡ false
irrefl x = ground arith

pub scan_up-Up :
    (left right middle : ℕ) (s : Split)
    → Loop left right middle s
    → s.i < s.j1
    → Sentinels left right middle s
    → Yields (Up left right middle s) (scan_up (length s.arr) s.arr middle s.i)
scan_up-Up left right middle s l lt st = elim (dec_le s.i middle) [
  | yes before ↦
      Yields-mono
        (scan_up-ScannedUp (length s.arr) s.arr middle s.i middle before
          (omega (arith, l.size, l.mid_right)) (omega (arith, l.size, l.mid_right))
          (irrefl (at s.arr middle)) (omega (arith, l.size, l.mid_right)))
        λ i' r. record {
          from_start = r.from_start;
          in_arr = omega (arith, r.to_stop, l.mid_right);
          bound = inl r.to_stop;
          ends = r.ends;
        }
  | no past ↦
      let at_j : (s.j1 ≤ right) × (ltb_ℤ (at s.arr s.j1) (at s.arr middle) ≡ false) =
        ground (arith, st.up) in
      Yields-mono
        (scan_up-ScannedUp (length s.arr) s.arr middle s.i s.j1 (omega arith)
          (omega (arith, l.size)) (omega (arith, l.size, l.mid_right)) at_j.1
          (omega (arith, l.size)))
        λ i' r. record {
          from_start = r.from_start;
          in_arr = omega (arith, r.to_stop);
          bound = inr (omega arith, r.to_stop, at_j.0);
          ends = r.ends;
        }
]

pub record Down (left right middle : ℕ) (s : Split) (j1' : ℕ) : Type 0 where
  pub from_start : j1' ≤ s.j1
  pub in_arr : left < j1'
  pub bound : (middle < j1') ⊎ ((s.j1 ≤ middle) × (s.i ≤ j1') × (left < s.i))
  pub ends : ltb_ℤ (at s.arr middle) (at s.arr (j1' - 1)) ≡ false

pub scan_down-Down :
    (left right middle : ℕ) (s : Split)
    → Loop left right middle s
    → s.i < s.j1
    → Sentinels left right middle s
    → Yields (Down left right middle s) (scan_down s.arr middle s.j1)
scan_down-Down left right middle s l lt st = elim (dec_le s.j1 middle) [
  | no before ↦
      Yields-mono
        (scan_down-ScannedDown s.arr middle s.j1 middle (omega arith)
          (omega (arith, l.size, l.j1_le)) (omega (arith, l.size, l.mid_right))
          (irrefl (at s.arr middle)))
        λ j1' r. record {
          from_start = r.from_start;
          in_arr = omega (arith, r.to_stop, l.mid_left);
          bound = inl r.to_stop;
          ends = r.ends;
        }
  | yes past ↦
      let at_i : (left < s.i) × (ltb_ℤ (at s.arr middle) (at s.arr (s.i - 1)) ≡ false) =
        ground (arith, st.down) in
      Yields-mono
        (scan_down-ScannedDown s.arr middle s.j1 (s.i - 1) (omega arith)
          (omega (arith, l.size, l.j1_le)) (omega (arith, l.size, l.mid_right)) at_i.1)
        λ j1' r. record {
          from_start = r.from_start;
          in_arr = omega (arith, r.to_stop);
          bound = inr (past, omega (arith, r.to_stop), at_i.0);
          ends = r.ends;
        }
]
