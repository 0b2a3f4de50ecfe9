-- ===== src/Contacts/Tests.antt =====
-- Runs of practise/contacts.c, and its theorem at a concrete input.
use learn_c_linux.Prelude.{◌≡◌, refl, none, some, List, [], ◌∷◌, arith, ◌==◌, if◌then◌else◌, ◌>>=◌}
use learn_c_linux.Nodes.{Heap, node, load, write}
use learn_c_linux.Nodes.Chain.{Chain, last, cons, Cells}
use learn_c_linux.Contacts.{
  CharStar, Person, is_same, find_person, del_person, add_person, change_person, display_person,
}
use learn_c_linux.Contacts.Menu.{
  Command, add, del, seek, alter, display, choose, main, gives_new, malloc_honest,
}
use learn_c_linux.Contacts.Book.{replay}
use learn_c_linux.Contacts.Persons.{Agree}
use learn_c_linux.Contacts.Session.{main-Agree}

abbrev person : CharStar → CharStar → Person
person name number = record { name = name; number = number }

abbrev ann : CharStar
ann = 97 ∷ 110 ∷ 110 ∷ []

abbrev bob : CharStar
bob = 98 ∷ 111 ∷ 98 ∷ []

abbrev digits : CharStar
digits = 49 ∷ 50 ∷ []

-- The first struct is at 8, and one contact at 16.
abbrev one_contact : Heap Person
one_contact a =
    if a == 8
    then some (node (person [] []) 16)
    else if a == 16
    then some (node (person ann digits) 0)
    else none

abbrev cells : Cells Person
cells = (16, person ann digits) ∷ []

one_contact-Chain : Chain one_contact 8 (person [] []) cells
one_contact-Chain = cons (omega arith) refl refl (last (omega arith) refl)

add_delete_display :
    (add_person 5 24 one_contact 8 bob digits >>= λ h.
    del_person 5 h 8 ann >>= λ h'. display_person 5 h' 8)
    ≡ some (person [] [] ∷ person bob digits ∷ [])
unfolding add_person del_person display_person load write is_same
add_delete_display = refl

changed :
    (change_person 5 one_contact 8 ann [] >>= λ h. display_person 5 h 8)
    ≡ some (person [] [] ∷ person ann [] ∷ [])
unfolding change_person display_person load write is_same
changed = refl

abbrev commands : List Command
commands = add bob digits 24 ∷ alter ann [] ∷ display ∷ del ann ∷ seek bob ∷ display ∷ []

shown :
    (main 9 8 commands one_contact >>= λ r. some (r.1))
    ≡ some
        (person [] [] ∷ person ann [] ∷ person bob digits ∷ person [] [] ∷ person bob digits ∷ [])
unfolding main choose add_person change_person del_person find_person display_person load write
    is_same
shown = refl

main-Agree_example :
    Agree 8 7
      (main 9 8 commands one_contact)
      (replay commands (person [] [], person ann digits ∷ []))
unfolding malloc_honest gives_new choose add_person change_person del_person find_person
    display_person load write is_same
main-Agree_example =
    main-Agree 9 8 commands one_contact (person [] []) cells one_contact-Chain (omega arith) refl
