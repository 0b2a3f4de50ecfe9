-- ===== src/Contacts/Book.antt =====
-- practise/contacts.c: what the menu means, on a list of contacts and with no heap. The first struct counts
-- as a contact wherever the program looks for a name.
use learn_c_linux.Prelude.{
  ℕ, ltb, Bool, true, false, ◌&&◌, ◌||◌, ◌==◌, if◌then◌else◌, Option, none, some, ◌>>=◌, List, [],
  ◌∷◌, ◌++◌, length,
}
use learn_c_linux.Contacts.{CharStar, Person, is_same}
use learn_c_linux.Contacts.Menu.{Command, add, del, seek, alter, display, leave, other}

-- The first struct, and the contacts behind it in the order in which they were added.
abbrev pub Book : Type 0
Book = Person × List Person

abbrev pub knows : CharStar → List Person → Bool
knows name [] = false
knows name (y ∷ ps) = is_same name y.name || knows name ps

abbrev pub revise : CharStar → Person → List Person → List Person
revise name person [] = []
revise name person (y ∷ ps) = if is_same name y.name then person ∷ ps else y ∷ revise name person ps

abbrev pub strike : CharStar → List Person → List Person
strike name [] = []
strike name (y ∷ ps) = if is_same name y.name then ps else y ∷ strike name ps

-- One more contact at the end, when there is memory, unless the name is known.
abbrev pub enter : Person → ℕ → Book → Option Book
enter person cell (y, ps) =
    if knows person.name (y ∷ ps)
    then some (y, ps)
    else if cell == 0
    then none
    else some (y, ps ++ (person ∷ []))

-- The first of the name is given the new number, if there is one.
abbrev pub correct : Person → Book → Book
correct person (y, ps) =
    if is_same person.name y.name then (person, ps) else (y, revise person.name person ps)

-- The first of the name goes, which must be there and not the first struct.
abbrev pub remove : CharStar → Book → Option Book
remove name (y, ps) =
    if is_same name y.name then none else if knows name ps then some (y, strike name ps) else none

abbrev pub fits : Command → Bool
fits (add name number _) = ltb (length name) 10 && ltb (length number) 11
fits (del name) = ltb (length name) 10
fits (seek name) = ltb (length name) 10
fits (alter name number) = ltb (length name) 10 && ltb (length number) 11
fits _ = true

-- What a command does to the book, and what it shows; `none` is a fault.
abbrev pub obey : Command → Book → Option (Book × List Person)
obey (add name number cell) b =
    enter (record { name = name; number = number }) cell b >>= λ b'. some (b', [])
obey (del name) b = remove name b >>= λ b'. some (b', [])
obey (seek name) b = some (b, [])
obey (alter name number) b = some (correct (record { name = name; number = number }) b, [])
obey display (y, ps) = some ((y, ps), y ∷ ps)
obey leave b = none
obey other b = some (b, [])

abbrev pub replay_one : Command → Book → Option (Book × List Person)
replay_one c b = if fits c then obey c b else none

abbrev pub replay : List Command → Book → Option (Book × List Person)
replay [] b = some (b, [])
replay (c ∷ cs) b = replay_one c b >>= λ r. replay cs r.0 >>= λ r'. some (r'.0, r.1 ++ r'.1)
