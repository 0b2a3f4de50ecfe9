-- ===== src/Contacts/Persons.antt =====
-- practise/contacts.c: the list on the heap next to the book, and single operations on both.
use learn_c_linux.Prelude.{
  ℕ, zero, suc, ◌≤◌, ◌<◌, Bool, true, false, not, ◌==◌, if◌then◌else◌, Bool-cases, Option-cases,
  inl, inr, Option, none, some, List, [], ◌∷◌, ◌++◌, map, length, arith, ◌≡◌, ◌⊎◌, ◌>>=◌, ◌≢◌, refl,
  ap,
}
use learn_c_linux.Nodes.{Node, node, Heap, write}
use learn_c_linux.Nodes.Chain.{Chain, last, cons, Cells, eq_zero, load_at}
use learn_c_linux.Contacts.{
  CharStar, Person, is_same, find_last, append_person, add_person, find_person, change_person,
}
use learn_c_linux.Contacts.Laws.{first, fill-some}
use learn_c_linux.Contacts.Change.{replaced, without, length-replaced}
use learn_c_linux.Contacts.Book.{Book, knows, revise, strike, correct}

abbrev pub persons : Cells Person → List Person
persons xs = map (λ c. c.1) xs

pub persons-replaced :
    (name : CharStar) (person : Person) (xs : Cells Person)
    → persons (replaced name person xs) ≡ revise name person (persons xs)
persons-replaced name person [] = refl
persons-replaced name person ((p, y) ∷ xs) = ground (arith, persons-replaced name person xs)

pub persons-without :
    (name : CharStar) (xs : Cells Person) → persons (without name xs) ≡ strike name (persons xs)
persons-without name [] = refl
persons-without name ((p, y) ∷ xs) = ground (arith, persons-without name xs)

pub persons-append :
    (xs : Cells Person) (cell : ℕ) (person : Person)
    → persons (xs ++ ((cell, person) ∷ [])) ≡ persons xs ++ (person ∷ [])
persons-append [] cell person = refl
persons-append ((p, y) ∷ xs) cell person = ap (λ ps. y ∷ ps) (persons-append xs cell person)

pub revise_unknown :
    (name : CharStar) (person : Person) (ps : List Person)
    → knows name ps ≡ false
    → revise name person ps ≡ ps
revise_unknown name person [] u = refl
revise_unknown name person (y ∷ ps) u = ground (arith, u, revise_unknown name person ps)

-- The program finds a struct just when the book has the name.
pub first-knows :
    (h : Heap Person) (p : ℕ) (y : Person) (xs : Cells Person) (name : CharStar)
    → Chain h p y xs
    → (first name ((p, y) ∷ xs) == 0) ≡ not (knows name (y ∷ persons xs))
first-knows h p y [] name (last ne e) = ground (arith, ne)
first-knows h p y (_ ∷ xs) name (cons {q} {z} ne e out c) =
    let rest = first-knows h q z xs name c in
    elim (Bool-cases (is_same name y.name)) [ inl s ↦ rw s (eq_zero p ne) | inr s ↦ rw s rest ]

-- Both fault, or the list on the heap is that of the book and the same has been shown.
pub data Agree (p n : ℕ)
    : Option (Heap Person × List Person) → Option (Book × List Person) → Type 0 where
  fault : Agree p n none none
  fine :
      {h : Heap Person} {y : Person} {xs : Cells Person} {ps shown : List Person}
      → Chain h p y xs
      → persons xs ≡ ps
      → length xs ≤ n
      → Agree p n (some (h, shown)) (some ((y, ps), shown))

pub record Fine (p n : ℕ) (o : Option (Heap Person × List Person)) (r : Option (Book × List Person))
    : Type 0 where
  pub heap : Heap Person
  pub y : Person
  pub xs : Cells Person
  pub shown : List Person
  pub runs : o ≡ some (heap, shown)
  pub replays : r ≡ some ((y, persons xs), shown)
  pub chain : Chain heap p y xs
  pub bound : length xs ≤ n

pub Agree-cases :
    {p n : ℕ} {o : Option (Heap Person × List Person)} {r : Option (Book × List Person)}
    → Agree p n o r
    → ((o ≡ none) × (r ≡ none)) ⊎ Fine p n o r
Agree-cases fault = inl (refl, refl)
Agree-cases (fine {h} {y} {xs} {shown = shown} chain same bound) = inr (record {
  heap = h;
  y = y;
  xs = xs;
  shown = shown;
  runs = refl;
  replays = rw same refl;
  chain = chain;
  bound = bound;
})

pub Agree-shown :
    {p m n : ℕ} {o : Option (Heap Person × List Person)} {r : Option (Book × List Person)}
    (shown : List Person)
    → Agree p m o r
    → m ≤ n
    → Agree p n (o >>= λ s. some (s.0, shown ++ s.1)) (r >>= λ s. some (s.0, shown ++ s.1))
Agree-shown shown fault le = fault
Agree-shown shown (fine chain same bound) le = fine chain same (omega (arith, bound, le))

pub found_change :
    (f : ℕ) (h : Heap Person) (p : ℕ) (name number : CharStar) (a : ℕ) (n : Node Person)
    → find_person f h p name ≡ some a
    → a ≢ 0
    → h a ≡ some n
    → length name < 10
    → length number < 11
    → change_person f h p name number
      ≡ some (write h a (some (node (record { name = name; number = number }) n.next)))
unfolding change_person
found_change f h p name number zero n found ne e short short' = absurd (ne refl)
found_change f h p name number (suc a) n found ne e short short' =
    rw (change_person, found, load_at h (suc a) n ne e, fill-some name number short short') refl

pub found_add :
    (f cell : ℕ) (h : Heap Person) (p : ℕ) (name number : CharStar) (a : ℕ)
    → find_person f h p name ≡ some a
    → a ≢ 0
    → add_person f cell h p name number ≡ some h
unfolding add_person
found_add f cell h p name number zero found ne = absurd (ne refl)
found_add f cell h p name number (suc a) found ne = rw (add_person, found) refl

pub no_memory :
    (f : ℕ) (h : Heap Person) (p : ℕ) (name number : CharStar)
    → find_person f h p name ≡ some 0
    → add_person f 0 h p name number ≡ none
unfolding add_person append_person
no_memory f h p name number found = elim (Option-cases (find_last f h p)) [
  | inl e ↦ rw (add_person, found, append_person, e) refl
  | inr (l, e) ↦ rw (add_person, found, append_person, e) refl
]

pub correct-fst_snd :
    (person y : Person) (ps : List Person)
    → correct person (y, ps) ≡ (
      if is_same person.name y.name then person else y,
      if is_same person.name y.name then ps else revise person.name person ps,
    )
correct-fst_snd person y ps = ground arith

pub correct_unknown :
    (person y : Person) (ps : List Person)
    → knows person.name (y ∷ ps) ≡ false
    → correct person (y, ps) ≡ (y, ps)
correct_unknown person y ps u =
    let other : is_same person.name y.name ≡ false = ground (arith, u) in
    rw (other, revise_unknown person.name person ps (ground (arith, u))) refl

pub persons_changed :
    (s : Bool) (name : CharStar) (person : Person) (xs : Cells Person)
    → persons (if s then xs else replaced name person xs)
      ≡ (if s then persons xs else revise name person (persons xs))
persons_changed true name person xs = refl
persons_changed false name person xs = persons-replaced name person xs

pub length_changed :
    (s : Bool) (name : CharStar) (person : Person) (xs : Cells Person)
    → length (if s then xs else replaced name person xs) ≤ suc (length xs)
length_changed true name person xs = omega arith
length_changed false name person xs = omega (arith, length-replaced name person xs)

pub absent_change :
    (f : ℕ) (h : Heap Person) (p : ℕ) (name number : CharStar)
    → find_person f h p name ≡ some 0
    → change_person f h p name number ≡ some h
unfolding change_person
absent_change f h p name number found = rw (change_person, found) refl
