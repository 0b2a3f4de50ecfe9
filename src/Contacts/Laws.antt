-- ===== src/Contacts/Laws.antt =====
-- practise/contacts.c: what the operations do to the list.
use learn_c_linux.Prelude.{
  ℕ, zero, suc, ◌+◌, ◌<◌, ◌≡◌, ◌≢◌, refl, ap, ◌∙◌, Option-cases, false, if◌then◌else◌, Bool-cases,
  inl, inr, Option, none, some, List, [], ◌∷◌, ◌++◌, map, length, arith, Yields, yields,
  Yields-mono,
}
use learn_c_linux.Nodes.{node, Heap, write, load, free, set_next}
use learn_c_linux.Nodes.Chain.{
  Chain, last, cons, Cells, has, Chain-ne, Chain-head, eq_zero, load_at,
}
use learn_c_linux.Contacts.{
  CharStar, Person, is_same, fill, find_person, find_pervious, del_person, find_last, append_person,
  add_person, display_person, exit_contacts,
}

-- The first struct that has the name, or `NULL`.
abbrev pub first : CharStar → Cells Person → ℕ
first name [] = 0
first name ((p, y) ∷ xs) = if is_same name y.name then p else first name xs

-- `findPerson` on a list ends and returns the first struct that has the name, or `NULL`; the first struct
-- of the list, which holds no contact, counts as well.
pub find_person-first :
    (f : ℕ) (h : Heap Person) (p : ℕ) (y : Person) (xs : Cells Person) (name : CharStar)
    → Chain h p y xs
    → length xs < f
    → find_person f h p name ≡ some (first name ((p, y) ∷ xs))
unfolding find_person
find_person-first zero h p y xs name c fuel = absurd (omega arith)
find_person-first (suc f) h p y [] name (last ne e) fuel =
    let here = load_at h p (node y 0) ne e in
    elim (Bool-cases (is_same name y.name)) [
      | inl s ↦ rw (find_person, here, s) refl
      | inr s ↦ rw (find_person, here, s) refl
    ]
find_person-first (suc f) h p y (_ ∷ xs) name (cons {q} {z} ne e out c) fuel =
    let here = load_at h p (node y q) ne e in
    let rest = find_person-first f h q z xs name c (omega arith) in
    elim (Bool-cases (is_same name y.name)) [
      | inl s ↦ rw (find_person, here, s) refl
      | inr s ↦ rw (find_person, here, s, eq_zero q (Chain-ne c)) rest
    ]

display_step :
    (f : ℕ) (h : Heap Person) (p q : ℕ) (y : Person) (ps : List Person)
    → p ≢ 0
    → h p ≡ some (node y q)
    → display_person f h q ≡ some ps
    → display_person (suc f) h p ≡ some (y ∷ ps)
unfolding display_person
display_step f h p q y ps ne e rest =
    rw (display_person, eq_zero p ne, load_at h p (node y q) ne e, rest) refl

-- `displayPerson` prints the contacts of the list in order, after what the first struct holds.
pub display_person-map :
    (f : ℕ) (h : Heap Person) (p : ℕ) (y : Person) (xs : Cells Person)
    → Chain h p y xs
    → length xs + 1 < f
    → display_person f h p ≡ some (y ∷ map (λ c. c.1) xs)
unfolding display_person
display_person-map zero h p y xs c fuel = absurd (omega arith)
display_person-map (suc zero) h p y xs c fuel = absurd (omega arith)
display_person-map (suc (suc f)) h p y [] (last ne e) fuel =
    rw (eq_zero p ne, load_at h p (node y 0) ne e) refl
display_person-map (suc (suc f)) h p y (_ ∷ xs) (cons {q} {z} ne e out c) fuel =
    let rest = display_person-map (suc f) h q z xs c (omega arith) in
    display_step (suc f) h p q y (z ∷ map (λ x. x.1) xs) ne e rest

-- `exit_contacts` reads a struct that it has freed, however long it may run.
pub exit_contacts-faults :
    (f : ℕ) (h : Heap Person) (p : ℕ) (y : Person) (xs : Cells Person)
    → Chain h p y xs
    → exit_contacts f h p ≡ none
unfolding exit_contacts free load write
exit_contacts-faults zero h p y xs c = refl
exit_contacts-faults (suc f) h p y xs c =
    let ne = Chain-ne c in let (q, e) = Chain-head c in ground arith

-- `delPerson` of a name that no struct has reads through `NULL`.
pub del_person-absent :
    (f : ℕ) (h : Heap Person) (p : ℕ) (y : Person) (xs : Cells Person) (name : CharStar)
    → Chain h p y xs
    → length xs < f
    → first name ((p, y) ∷ xs) ≡ 0
    → del_person f h p name ≡ none
unfolding del_person load
del_person-absent f h p y xs name c fuel absent =
    let found : find_person f h p name ≡ some 0 =
      find_person-first f h p y xs name c fuel ∙ ap some absent in
    elim (Option-cases (find_pervious f h p 0)) [
      | inl e ↦ rw (del_person, found, e) refl
      | inr (q, e) ↦ rw (del_person, found, e) refl
    ]

-- What is done at the end of the list.
abbrev link_last : ℕ → Person → Heap Person → Option ℕ → Option (Heap Person)
link_last cell person h none = none
link_last cell person h (some l) = set_next (write h cell (some (node person 0))) l cell

record Appended (h : Heap Person) (cell : ℕ) (person : Person) (p : ℕ) (y : Person)
    (xs : Cells Person) (h' : Heap Person) : Type 0 where
  chain : Chain h' p y (xs ++ ((cell, person) ∷ []))
  others : (a : ℕ) → has a ((p, y) ∷ xs) ≡ false → a ≢ cell → h' a ≡ h a

link_last-runs :
    (cell : ℕ) (person : Person) (h : Heap Person) (p : ℕ) (y : Person)
    → p ≢ 0
    → h p ≡ some (node y 0)
    → h cell ≡ none
    → link_last cell person h (some p)
      ≡ some (write (write h cell (some (node person 0))) p (some (node y cell)))
unfolding set_next load write
link_last-runs cell person h p y ne e fresh = ground arith

has-snoc :
    (a cell : ℕ) (person : Person) (xs : Cells Person)
    → has a xs ≡ false
    → a ≢ cell
    → has a (xs ++ ((cell, person) ∷ [])) ≡ false
has-snoc a cell person [] o ne = ground arith
has-snoc a cell person (x ∷ xs) o ne = ground (arith, has-snoc a cell person xs)

link_last-Appended :
    (f cell : ℕ) (h : Heap Person) (p : ℕ) (y person : Person) (xs : Cells Person)
    → Chain h p y xs
    → length xs < f
    → cell ≢ 0
    → h cell ≡ none
    → Yields (Appended h cell person p y xs) (link_last cell person h (find_last f h p))
unfolding find_last write
link_last-Appended zero cell h p y person xs c fuel nc fresh = absurd (omega arith)
link_last-Appended (suc f) cell h p y person [] (last ne e) fuel nc fresh =
    let found : find_last (suc f) h p ≡ some p = rw (find_last, load_at h p (node y 0) ne e) refl in
    rw (found, link_last-runs cell person h p y ne e fresh)
      (yields (record {
        chain = cons ne (ground arith) (ground arith) (last nc (ground arith));
        others = λ a o apart. ground arith;
      }))
link_last-Appended (suc f) cell h p y person (_ ∷ xs) (cons {q} {z} ne e out c) fuel nc fresh =
    let further : find_last (suc f) h p ≡ find_last f h q =
      rw (find_last, load_at h p (node y q) ne e, eq_zero q (Chain-ne c)) refl in
    let apart : p ≢ cell = ground (arith, e, fresh) in
    rw further (
      Yields-mono (link_last-Appended f cell h q z person xs c (omega arith) nc fresh) λ h' r.
        record {
          chain =
              cons ne (r.others p out apart ∙ e) (has-snoc p cell person ((q, z) ∷ xs) out apart)
                r.chain;
          others = λ a o apart. r.others a (ground arith) apart;
        })

not_none : {P : Heap Person → Type 0} → ¬ (Yields P none)
not_none y = elim y [ ]

pub fill-some :
    (name number : CharStar)
    → length name < 10
    → length number < 11
    → fill name number ≡ some (record { name = name; number = number })
unfolding fill
fill-some name number a b = ground arith

-- `addPerson` of a name that no struct has, with strings that fit and a new struct from `malloc`, ends and
-- puts the contact behind the others, which stay as they are.
pub add_person-Chain :
    (f cell : ℕ) (h : Heap Person) (p : ℕ) (y : Person) (xs : Cells Person) (name number : CharStar)
    → Chain h p y xs
    → length xs < f
    → first name ((p, y) ∷ xs) ≡ 0
    → cell ≢ 0
    → h cell ≡ none
    → length name < 10
    → length number < 11
    → Yields
        (λ h'. Chain h' p y (xs ++ ((cell, record { name = name; number = number }) ∷ [])))
        (add_person f cell h p name number)
unfolding add_person append_person
add_person-Chain f cell h p y xs name number c fuel absent nc fresh fits fits' =
    let person : Person = record { name = name; number = number } in
    let found : find_person f h p name ≡ some 0 =
      find_person-first f h p y xs name c fuel ∙ ap some absent in
    let linked = link_last-Appended f cell h p y person xs c fuel nc fresh in
    elim (Option-cases (find_last f h p)) [
      | inl e ↦ absurd (not_none (rw e at linked))
      | inr (l, e) ↦
          rw
            (add_person, found, append_person, e, eq_zero cell nc, fill-some name number fits fits')
            (Yields-mono (rw e at linked) λ h' r. r.chain)
    ]
