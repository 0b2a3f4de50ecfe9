-- ===== src/Contacts/Menu.antt =====
-- practise/contacts.c: the loop of `main`, from the first struct on, which `malloc` has given and nobody
-- has filled. A command is what `control` has been set to, with the texts typed after it; printing is left
-- out but for `displayPerson`.
use learn_c_linux.Prelude.{
  ℕ, ltb, Bool, true, false, ◌&&◌, if◌then◌else◌, Option, none, some, ◌>>=◌, List, [], ◌∷◌, ◌++◌,
  length,
}
use learn_c_linux.Nodes.{Heap}
use learn_c_linux.Contacts.{
  CharStar, Person, name_size, number_size, add_person, find_person, del_person, change_person,
  display_person, exit_contacts,
}

-- The cases of the `switch`, in its order, and any other number. `add` has what `malloc` would return.
pub data Command : Type 0 where
  add : CharStar → CharStar → ℕ → Command
  del : CharStar → Command
  seek : CharStar → Command
  alter : CharStar → CharStar → Command
  display : Command
  leave : Command
  other : Command

-- `scanf("%s", t)`
abbrev pub scan : ℕ → CharStar → Option CharStar
scan size text = if ltb (length text) size then some text else none

abbrev pub quietly : Option (Heap Person) → Option (Heap Person × List Person)
quietly o = o >>= λ h. some (h, [])

-- One turn of the loop: the heap, and the structs that are printed.
unfoldable pub choose : ℕ → ℕ → Command → Heap Person → Option (Heap Person × List Person)
unfolding add_person find_person del_person change_person display_person exit_contacts
choose f contacts (add name number cell) h = do
  name ← scan name_size name
  number ← scan number_size number
  quietly (add_person f cell h contacts name number)
choose f contacts (del name) h = do
  name ← scan name_size name
  quietly (del_person f h contacts name)
choose f contacts (seek name) h = do
  name ← scan name_size name
  _ ← find_person f h contacts name
  some (h, [])
choose f contacts (alter name number) h = do
  name ← scan name_size name
  number ← scan number_size number
  quietly (change_person f h contacts name number)
choose f contacts display h = do shown ← display_person f h contacts; some (h, shown)
choose f contacts leave h = quietly (exit_contacts f h contacts)
choose f contacts other h = some (h, [])

-- `exit(1)`
abbrev pub is_over : Command → Bool
is_over leave = true
is_over _ = false

-- The turns for the commands in order.
unfoldable pub main : ℕ → ℕ → List Command → Heap Person → Option (Heap Person × List Person)
unfolding choose
main f contacts [] h = some (h, [])
main f contacts (c ∷ cs) h = elim (choose f contacts c h) [
  | none ↦ none
  | some (h', shown) ↦
      if is_over c
      then some (h', shown)
      else main f contacts cs h' >>= λ r. some (r.0, shown ++ r.1)
]

-- What `malloc` returns is no struct that is still in use, in any turn of the run.
unfoldable pub gives_new : Command → Heap Person → Bool
gives_new (add _ _ cell) h = elim (h cell) [ none ↦ true | some _ ↦ false ]
gives_new _ h = true

unfoldable pub malloc_honest : ℕ → ℕ → List Command → Heap Person → Bool
unfolding gives_new choose
malloc_honest f contacts [] h = true
malloc_honest f contacts (c ∷ cs) h =
    gives_new c h
    && elim (choose f contacts c h) [ none ↦ true | some (h', _) ↦ malloc_honest f contacts cs h' ]
