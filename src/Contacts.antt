-- ===== src/Contacts.antt =====
-- practise/contacts.c: the list of contacts on a heap. `none` is a bad access, a string that does not
-- fit, or no fuel left. The list's first struct, which `main` allocates and never fills, is a node
-- like the others.
pub mod Laws
pub mod Change
pub mod Menu
pub mod Book
pub mod Persons
pub mod Session
mod Tests
use learn_c_linux.Prelude.{
  ℕ, zero, suc, Bool, true, false, ◌&&◌, ◌==◌, ltb, if◌then◌else◌, Option, none, some, ◌>>=◌, List,
  [], ◌∷◌, length,
}
use learn_c_linux.Nodes.{Node, node, Heap, write, load, free, set_next}

-- The characters before the terminating zero.
abbrev pub CharStar : Type 0
CharStar = List ℕ

pub record Person : Type 0 where
  pub name : CharStar
  pub number : CharStar

abbrev pub name_size : ℕ
name_size = 10

abbrev pub number_size : ℕ
number_size = 11

-- `strcmp(s, t) == 0`
unfoldable pub is_same : CharStar → CharStar → Bool
is_same [] [] = true
is_same [] (_ ∷ _) = false
is_same (_ ∷ _) [] = false
is_same (a ∷ s) (b ∷ t) = (a == b) && is_same s t

-- Two calls of `strcpy` into the arrays of a struct.
unfoldable pub fill : CharStar → CharStar → Option Person
fill name number =
    if ltb (length name) name_size
    then (if ltb (length number) number_size
        then some (record { name = name; number = number })
        else none)
    else none

unfoldable pub find_person : ℕ → Heap Person → ℕ → CharStar → Option ℕ
find_person zero h p name = none
find_person (suc f) h p name = elim (load h p) [
  | none ↦ none
  | some n ↦ elim (is_same name n.element.name) [
    | true ↦ some p
    | false ↦ if n.next == 0 then some 0 else find_person f h n.next name
  ]
]

unfoldable pub find_pervious : ℕ → Heap Person → ℕ → ℕ → Option ℕ
find_pervious zero h l p = none
find_pervious (suc f) h l p = elim (load h l) [
  | none ↦ none
  | some n ↦ if n.next == p then some l else find_pervious f h n.next p
]

unfoldable pub del_person : ℕ → Heap Person → ℕ → CharStar → Option (Heap Person)
unfolding find_person find_pervious set_next free
del_person f h contacts name = do
  aim ← find_person f h contacts name
  pre ← find_pervious f h contacts aim
  n ← load h aim
  h' ← set_next h pre n.next
  free h' aim

-- The loop that looks for the last struct.
unfoldable pub find_last : ℕ → Heap Person → ℕ → Option ℕ
find_last zero h p = none
find_last (suc f) h p = elim (load h p) [
  | none ↦ none
  | some n ↦ if n.next == 0 then some p else find_last f h n.next
]

-- What `addPerson` does when the name is new; `cell` is what `malloc` returns.
unfoldable pub append_person : ℕ → ℕ → Heap Person → ℕ → CharStar → CharStar → Option (Heap Person)
unfolding find_last fill set_next
append_person f cell h contacts name number = do
  p ← find_last f h contacts
  person ← if cell == 0 then none else fill name number
  set_next (write h cell (some (node person 0))) p cell

unfoldable pub add_person : ℕ → ℕ → Heap Person → ℕ → CharStar → CharStar → Option (Heap Person)
unfolding find_person append_person
add_person f cell h contacts name number = elim (find_person f h contacts name) [
  | none ↦ none
  | some zero ↦ append_person f cell h contacts name number
  | some (suc _) ↦ some h
]

unfoldable pub change_person : ℕ → Heap Person → ℕ → CharStar → CharStar → Option (Heap Person)
unfolding find_person fill
change_person f h contacts name number = elim (find_person f h contacts name) [
  | none ↦ none
  | some zero ↦ some h
  | some (suc k) ↦ elim (load h (suc k)) [
    | none ↦ none
    | some n ↦ elim (fill name number) [
      | none ↦ none
      | some person ↦ some (write h (suc k) (some (node person n.next)))
    ]
  ]
]

-- The structs that `displayPerson` prints.
unfoldable pub display_person : ℕ → Heap Person → ℕ → Option (List Person)
display_person zero h p = none
display_person (suc f) h p = if p == 0 then some [] else elim (load h p) [
  | none ↦ none
  | some n ↦ elim (display_person f h n.next) [ none ↦ none | some ps ↦ some (n.element ∷ ps) ]
]

-- The loop of `exit_contacts`, which reads a struct after it has freed it.
unfoldable pub exit_contacts : ℕ → Heap Person → ℕ → Option (Heap Person)
unfolding free
exit_contacts zero h p = none
exit_contacts (suc f) h p = if p == 0 then some h else elim (free h p) [
  | none ↦ none
  | some h' ↦ elim (load h' p) [ none ↦ none | some tmp ↦ exit_contacts f h' tmp.next ]
]
