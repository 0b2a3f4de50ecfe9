-- ===== src/Contacts/Change.antt =====
-- practise/contacts.c: `changePerson` and `delPerson` on a list.
use learn_c_linux.Prelude.{
  sym, subst, Bool, ℕ, zero, suc, ◌<◌, ◌≡◌, ◌≢◌, refl, ap, ◌∙◌, true, false, ◌==◌, ◌||◌,
  if◌then◌else◌, Bool-cases, inl, inr, Option, none, some, [], ◌∷◌, length, arith, Yields, yields,
  Yields-mono, ◌>>=◌,
}
use learn_c_linux.Nodes.{Node, node, Heap, write, load, free, set_next}
use learn_c_linux.Nodes.Chain.{
  Chain, last, cons, Cells, has, frame, Chain-ne, Chain-head, load_at, unlink-Chain,
}
use learn_c_linux.Contacts.{CharStar, Person, is_same, find_pervious}
use learn_c_linux.Contacts.Laws.{first}

or_true : (a b : Bool) → b ≡ true → a || b ≡ true
or_true a b h = ground (arith, h)

apart : (p a : ℕ) (xs : Cells Person) → has a xs ≡ true → has p xs ≡ false → p ≢ a
apart p a xs inside outside e = cc

-- A cell that is found is one of the list.
has-first :
    (name : CharStar) (xs : Cells Person) → first name xs ≢ 0 → has (first name xs) xs ≡ true
has-first name [] ne = absurd (ne refl)
has-first name ((p, y) ∷ xs) ne = elim (Bool-cases (is_same name y.name)) [
  | inl s ↦ rw s (ground arith)
  | inr s ↦
      let later = has-first name xs (λ e. ne (rw s e)) in
      let found : first name ((p, y) ∷ xs) ≡ first name xs = rw s refl in
      subst (λ a. has a ((p, y) ∷ xs) ≡ true) (sym found) (or_true (first name xs == p) _ later)
]

-- The list with the first contact of that name changed, or taken out.
abbrev pub replaced : CharStar → Person → Cells Person → Cells Person
replaced name person [] = []
replaced name person ((p, y) ∷ xs) =
    if is_same name y.name then (p, person) ∷ xs else (p, y) ∷ replaced name person xs

abbrev pub without : CharStar → Cells Person → Cells Person
without name [] = []
without name ((p, y) ∷ xs) = if is_same name y.name then xs else (p, y) ∷ without name xs

has-replaced :
    (a : ℕ) (name : CharStar) (person : Person) (xs : Cells Person)
    → has a (replaced name person xs) ≡ has a xs
has-replaced a name person [] = refl
has-replaced a name person ((p, y) ∷ xs) = ground (arith, has-replaced a name person xs)

has-without :
    (a : ℕ) (name : CharStar) (xs : Cells Person)
    → has a xs ≡ false
    → has a (without name xs) ≡ false
has-without a name [] out = refl
has-without a name ((p, y) ∷ xs) out = ground (arith, out, has-without a name xs)

still_out :
    (name : CharStar) (p q : ℕ) (z : Person) (xs : Cells Person)
    → has p ((q, z) ∷ xs) ≡ false
    → has p ((q, z) ∷ without name xs) ≡ false
still_out name p q z xs op =
    let rest = has-without p name xs (ground (arith, op)) in ground (arith, op, rest)

pub length-without :
    (name : CharStar) (xs : Cells Person) → length (without name xs) < suc (length xs)
length-without name [] = omega arith
length-without name ((p, y) ∷ xs) = ground (arith, length-without name xs)

pub length-replaced :
    (name : CharStar) (person : Person) (xs : Cells Person)
    → length (replaced name person xs) ≡ length xs
length-replaced name person [] = refl
length-replaced name person ((p, y) ∷ xs) = ground (arith, length-replaced name person xs)

module _ (name : CharStar) (person : Person) where
  replaced-cons :
      (q : ℕ) (z : Person) (xs : Cells Person)
      → replaced name person ((q, z) ∷ xs)
        ≡ (q, if is_same name z.name then person else z)
          ∷ (if is_same name z.name then xs else replaced name person xs)
  replaced-cons q z xs = ground arith

  -- What `changePerson` leaves, from any node on.
  pub record Changed (h : Heap Person) (p : ℕ) (y : Person) (xs : Cells Person) : Type 0 where
    pub old : Node Person
    pub there : h (first name ((p, y) ∷ xs)) ≡ some old
    pub chain :
        Chain
          (write h (first name ((p, y) ∷ xs)) (some (node person old.next)))
          p
          (if is_same name y.name then person else y)
          (if is_same name y.name then xs else replaced name person xs)

  pub change-Changed :
      (h : Heap Person) (p : ℕ) (y : Person) (xs : Cells Person)
      → Chain h p y xs
      → first name ((p, y) ∷ xs) ≢ 0
      → Changed h p y xs
  unfolding write
  change-Changed h p y [] (last ne e) found = elim (Bool-cases (is_same name y.name)) [
    | inl s ↦ record { old = node y 0; there = rw s e; chain = rw s (last ne (ground arith)) }
    | inr s ↦ absurd (found (rw s refl))
  ]
  change-Changed h p y (_ ∷ xs) (cons {q} {z} ne e out c) found =
      elim (Bool-cases (is_same name y.name)) [
        | inl s ↦ record {
          old = node y q;
          there = rw s e;
          chain = rw s (cons ne (ground arith) out (frame c λ a i. ground arith));
        }
        | inr s ↦
            let later : first name ((q, z) ∷ xs) ≢ 0 = λ e'. found (rw s e') in
            let r = change-Changed h q z xs c later in
            let inside = has-first name ((q, z) ∷ xs) later in
            record {
              old = r.old;
              there = rw s r.there;
              chain =
                  rw (s, replaced-cons q z xs)
                    (cons ne (ground (arith, e, apart p _ ((q, z) ∷ xs) inside out))
                      (ap (has p) (sym (replaced-cons q z xs))
                        ∙ has-replaced p name person ((q, z) ∷ xs)
                        ∙ out)
                      r.chain);
            }
      ]

-- What `delPerson` does once it has found the struct.
abbrev pub cut_out : ℕ → Heap Person → ℕ → ℕ → Option (Heap Person)
cut_out f h contacts aim = find_pervious f h contacts aim >>= λ pre.
    load h aim >>= λ n. set_next h pre n.next >>= λ h'. free h' aim

eq_zero' : (a : ℕ) → a ≢ 0 → (0 == a) ≡ false
eq_zero' a ne = ground (arith, ne)

pub Chain-out :
    {h : Heap Person} {p : ℕ} {y : Person} {xs : Cells Person} → Chain h p y xs → has p xs ≡ false
Chain-out (last ne e) = refl
Chain-out (cons ne e out c) = out

null_pervious : (f : ℕ) (h : Heap Person) (a : ℕ) → find_pervious f h 0 a ≡ none
unfolding find_pervious load
null_pervious zero h a = refl
null_pervious (suc f) h a = refl

-- A struct that no other one leads to has none before it.
pub no_pervious :
    (f : ℕ) (h : Heap Person) (p : ℕ) (y : Person) (xs : Cells Person) (a : ℕ)
    → Chain h p y xs
    → has a xs ≡ false
    → a ≢ 0
    → find_pervious f h p a ≡ none
unfolding find_pervious
no_pervious zero h p y xs a c out ne = refl
no_pervious (suc f) h p y [] a (last np e) out ne =
    rw (find_pervious, load_at h p (node y 0) np e, eq_zero' a ne) (null_pervious f h a)
no_pervious (suc f) h p y (_ ∷ xs) a (cons {q} {z} np e op c) out ne =
    let further = no_pervious f h q z xs a c (ground (arith, out)) ne in
    let other : (q == a) ≡ false = ground (arith, out) in
    rw (find_pervious, load_at h p (node y q) np e, other) further

cut_here :
    (f : ℕ) (h : Heap Person) (p q r : ℕ) (y z : Person)
    → p ≢ 0
    → h p ≡ some (node y q)
    → q ≢ 0
    → h q ≡ some (node z r)
    → p ≢ q
    → cut_out (suc f) h p q ≡ some (write (write h p (some (node y r))) q none)
unfolding find_pervious set_next free load write
cut_here f h p q r y z np e nq eq pq = ground arith

-- A struct further on is not the second one, which no struct behind it is.
cut_later :
    (f : ℕ) (h : Heap Person) (p q : ℕ) (y z : Person) (xs : Cells Person) (aim : ℕ)
    → p ≢ 0
    → h p ≡ some (node y q)
    → Chain h q z xs
    → has aim xs ≡ true
    → cut_out (suc f) h p aim ≡ cut_out f h q aim
unfolding find_pervious
cut_later f h p q y z xs aim np e c inside =
    let other : (q == aim) ≡ false = ground (arith, apart q aim xs inside (Chain-out c)) in
    rw (find_pervious, load_at h p (node y q) np e, other) refl

pub record Cut (h : Heap Person) (name : CharStar) (p : ℕ) (y : Person) (xs : Cells Person)
    (h' : Heap Person) : Type 0 where
  pub chain : Chain h' p y (without name xs)
  pub others : (a : ℕ) → has a ((p, y) ∷ xs) ≡ false → h' a ≡ h a

pub cut_out-Cut :
    (f : ℕ) (h : Heap Person) (name : CharStar) (p : ℕ) (y : Person) (xs : Cells Person)
    → Chain h p y xs
    → length xs < f
    → first name xs ≢ 0
    → Yields (Cut h name p y xs) (cut_out f h p (first name xs))
unfolding write
cut_out-Cut zero h name p y xs c fuel found = absurd (omega (arith, fuel))
cut_out-Cut (suc f) h name p y [] c fuel found = absurd (found refl)
cut_out-Cut (suc f) h name p y (_ ∷ xs) (cons {q} {z} np e op c) fuel found =
    elim (Bool-cases (is_same name z.name)) [
      | inl s ↦
          let nq = Chain-ne c in
          let (r, eq) = Chain-head c in
          let pq : p ≢ q = ground (arith, op) in
          rw (s, cut_here f h p q r y z np e nq eq pq)
            (yields (record {
              chain = rw s (unlink-Chain h p q r y z xs np eq op c);
              others = λ a o. ground (arith, o);
            }))
      | inr s ↦
          let later : first name xs ≢ 0 = λ e'. found (rw s e') in
          let inside = has-first name xs later in
          rw (s, cut_later f h p q y z xs (first name xs) np e c inside)
            (Yields-mono (cut_out-Cut f h name q z xs c (omega (arith, fuel)) later) λ h' r.
              record {
                chain = rw s (cons np (r.others p op ∙ e) (still_out name p q z xs op) r.chain);
                others = λ a o. r.others a (ground (arith, o));
              })
    ]
