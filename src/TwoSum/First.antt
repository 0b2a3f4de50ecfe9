-- ===== src/TwoSum/First.antt =====
-- test.c: that the first pair is found.
use learn_c_linux.Prelude.{
  ℕ, zero, suc, ◌+◌, ◌-◌, ◌≤◌, ◌<◌, ◌≡◌, ◌≢◌, refl, sym, ap, ◌∙◌, dec_le, ◌⊎◌, inl, inr, true,
  false, Bool-cases, Option, none, some, List, arith,
}
use mathlib.Core.Option.{some-injective}
use learn_c_linux.Prelude.Int.{ℤ}
use learn_c_linux.TwoSum.{eqb_ℤ, add_at, search_from, search, two_sum}

eqb_ℤ-true : (a b : ℤ) → eqb_ℤ a b ≡ true → a ≡ b
eqb_ℤ-true a b h = ground (arith, h)

eqb_ℤ-false : (a b : ℤ) → eqb_ℤ a b ≡ false → a ≢ b
eqb_ℤ-false a b h e = ground (arith, h, e)

-- The array `nums`, of which the first `size` numbers are looked at.
module _ (nums : List ℤ) (size : ℕ) (target : ℤ) where
  -- No pair of `i` with a place from `j` on and before `k` adds up to the target.
  abbrev NoneIn : ℕ → ℕ → ℕ → Type 0
  NoneIn i j k = (j' : ℕ) → j ≤ j' → j' < k → add_at nums i j' ≢ some target

  -- No pair that begins at `from` or later does.
  abbrev pub NoPair : ℕ → Type 0
  NoPair from = (i j : ℕ) → from ≤ i → i < j → j < size → add_at nums i j ≢ some target

  -- The pair adds up to the target, and none of those before it that begin at `from` or later.
  pub record FirstPair (from i j : ℕ) : Type 0 where
    pub begins : from ≤ i
    pub ordered : i < j
    pub inside : j < size
    pub adds_up : add_at nums i j ≡ some target
    pub first :
        (i' j' : ℕ)
        → from ≤ i'
        → i' < j'
        → j' < size
        → (i' < i) ⊎ ((i' ≡ i) × (j' < j))
        → add_at nums i' j' ≢ some target

  -- Every sum that the loops can meet is an `int`.
  abbrev pub Adds : Type 0
  Adds = (i j : ℕ) → i < j → j < size → (s : ℤ) × (add_at nums i j ≡ some s)

  NoneIn-before : (i j k : ℕ) → add_at nums i j ≢ some target → NoneIn i (j + 1) k → NoneIn i j k
  NoneIn-before i j k here later j' from to = elim (dec_le (j + 1) j') [
    | yes h ↦ later j' h to
    | no h ↦ let same : j' ≡ j = omega (arith, from, h) in rw same here
  ]

  abbrev Searched : ℕ → ℕ → Option (Option (ℕ × ℕ)) → Type 0
  Searched i j o =
      ((o ≡ some none) × NoneIn i j size)
      ⊎ ((j' : ℕ) × (o ≡ some (some (i, j')))
          × (j ≤ j')
          × (j' < size)
          × (add_at nums i j' ≡ some target)
          × NoneIn i j j')

  search_from-Searched :
      (i n j : ℕ) → Adds → i < j → j + n ≡ size → Searched i j (search_from nums target i n j)
  unfolding search_from
  search_from-Searched i zero j adds apart whole =
      inl (refl, λ j' from to. absurd (omega (arith, whole, from, to)))
  search_from-Searched i (suc n) j adds apart whole =
      let (s, e) = adds i j apart (omega (arith, whole)) in
      elim (Bool-cases (eqb_ℤ s target)) [
        | inl hit ↦ inr (
          j,
          rw (search_from, e, hit) refl,
          omega arith,
          omega (arith, whole),
          e ∙ ap some (eqb_ℤ-true s target hit),
          λ j' from to. absurd (omega (arith, from, to)),
        )
        | inr miss ↦
            let here : add_at nums i j ≢ some target =
              λ e'. eqb_ℤ-false s target miss (some-injective s target (sym e ∙ e')) in
            elim (search_from-Searched i n (j + 1) adds (omega (arith, apart))
              (omega (arith, whole))) [
                | inl (nothing, later) ↦
                    inl (rw (search_from, e, miss) nothing, NoneIn-before i j size here later)
                | inr (j', found, from, inside, adds_up, later) ↦ inr (
                  j',
                  rw (search_from, e, miss) found,
                  omega (arith, from),
                  inside,
                  adds_up,
                  NoneIn-before i j j' here later,
                )
              ]
      ]

  NoPair-before : (i : ℕ) → NoneIn i (i + 1) size → NoPair (i + 1) → NoPair i
  NoPair-before i here later i' j' from apart inside = elim (dec_le (i + 1) i') [
    | yes h ↦ later i' j' h apart inside
    | no h ↦
        let same : i' ≡ i = omega (arith, from, h) in
        rw same (here j' (omega (arith, apart, same)) inside)
  ]

  FirstPair-before :
      (from i j : ℕ) → NoneIn from (from + 1) size → FirstPair (from + 1) i j → FirstPair from i j
  FirstPair-before from i j here pair = record {
    begins = omega (arith, pair.begins);
    ordered = pair.ordered;
    inside = pair.inside;
    adds_up = pair.adds_up;
    first = λ i' j' begins apart inside earlier. elim (dec_le (from + 1) i') [
      | yes h ↦ pair.first i' j' h apart inside earlier
      | no h ↦
          let same : i' ≡ from = omega (arith, begins, h) in
          rw same (here j' (omega (arith, apart, same)) inside)
    ];
  }

  abbrev Found : ℕ → Option (Option (ℕ × ℕ)) → Type 0
  Found from o =
      ((o ≡ some none) × NoPair from) ⊎ ((i j : ℕ) × (o ≡ some (some (i, j))) × FirstPair from i j)

  search-Found : (n i : ℕ) → Adds → i + n ≡ size → Found i (search nums size target n i)
  unfolding search
  search-Found zero i adds whole =
      inl (refl, λ i' j' from apart inside. absurd (omega (arith, whole, from, apart, inside)))
  search-Found (suc n) i adds whole =
      elim (search_from-Searched i (size - (i + 1)) (i + 1) adds (omega arith)
        (omega (arith, whole))) [
          | inr (j, found, from, inside, adds_up, before) ↦ inr (
            i,
            j,
            rw (search, found) refl,
            record {
              begins = omega arith;
              ordered = omega (arith, from);
              inside = inside;
              adds_up = adds_up;
              first = λ i' j' from' apart inside' earlier. elim earlier [
                | inl less ↦ absurd (omega (arith, less, from'))
                | inr (same, less) ↦ rw same (before j' (omega (arith, apart, same)) less)
              ];
            },
          )
          | inl (nothing, none_here) ↦ elim (search-Found n (i + 1) adds (omega (arith, whole))) [
            | inl (nothing', none_later) ↦
                inl (rw (search, nothing) nothing', NoPair-before i none_here none_later)
            | inr (i', j', found, pair) ↦
                inr (i', j', rw (search, nothing) found, FirstPair-before i i' j' none_here pair)
          ]
        ]

-- Where every sum that the loops can meet is of numbers in the array and is an `int`: either no two places of the
-- array add up to the target, and `twoSum` leaves `returnSize` as it was, or it writes the first such pair, by
-- the first place and then by the second; and where `returnSize` is a null pointer, as in `main`, that write
-- is a fault.
pub two_sum-first :
    (nums : List ℤ) (size : ℕ) (target : ℤ) (old : ℕ × ℕ)
    → Adds nums size target
    → ((two_sum nums size target (some old) ≡ some (some old)) × NoPair nums size target 0)
      ⊎ ((i j : ℕ) × (two_sum nums size target (some old) ≡ some (some (i, j)))
          × (two_sum nums size target none ≡ none)
          × FirstPair nums size target 0 i j)
unfolding two_sum
two_sum-first nums size target old adds =
    elim (search-Found nums size target size 0 adds (omega arith)) [
      | inl (nothing, no_pair) ↦ inl (rw (two_sum, nothing) refl, no_pair)
      | inr (i, j, found, pair) ↦
          inr (i, j, rw (two_sum, found) refl, rw (two_sum, found) refl, pair)
    ]
