-- ===== src/Contacts/Session.antt =====
-- practise/contacts.c: the menu on a heap does what it means on the book.
use learn_c_linux.Prelude.{
  ℕ, suc, ◌+◌, ◌<◌, ltb, true, false, Bool-cases, Option-cases, inl, inr, none, some, ◌>>=◌, List,
  [], ◌∷◌, length, length-append, arith, ◌≡◌, ◌≢◌, refl, ap, ◌∙◌, Yields-some, ℕ_discrete, ltb→lt,
}
use learn_c_linux.Nodes.{Heap}
use learn_c_linux.Nodes.Chain.{Chain, Cells, Chain-ne, eq_zero}
use learn_c_linux.Contacts.{
  CharStar, Person, is_same, add_person, find_person, del_person, change_person,
}
use learn_c_linux.Contacts.Laws.{
  first, find_person-first, display_person-map, exit_contacts-faults, del_person-absent,
  add_person-Chain,
}
use learn_c_linux.Contacts.Change.{
  change-Changed, cut_out-Cut, no_pervious, length-without, Chain-out,
}
use learn_c_linux.Contacts.Menu.{
  Command, add, del, seek, alter, display, leave, other, choose, main, is_over, gives_new,
  malloc_honest,
}
use learn_c_linux.Contacts.Book.{Book, knows, enter, correct, remove, replay_one, replay}
use learn_c_linux.Contacts.Persons.{
  Agree-cases, Agree-shown, persons, persons-without, persons-append, first-knows, Agree, fault,
  fine, found_change, found_add, no_memory, correct-fst_snd, correct_unknown, persons_changed,
  length_changed, absent_change,
}

module _ (f : ℕ) (h : Heap Person) (p : ℕ) (y : Person) (xs : Cells Person)
    (c : Chain h p y xs) where
  sees :
      (name : CharStar)
      → length xs + 1 < f
      → find_person f h p name ≡ some (first name ((p, y) ∷ xs))
  sees name fuel = find_person-first f h p y xs name c (omega (arith, fuel))

  known : (name : CharStar) → knows name (y ∷ persons xs) ≡ true → first name ((p, y) ∷ xs) ≢ 0
  known name k e = ground (arith, first-knows h p y xs name c, k, e)

  unknown : (name : CharStar) → knows name (y ∷ persons xs) ≡ false → first name ((p, y) ∷ xs) ≡ 0
  unknown name k = ground (arith, first-knows h p y xs name c, k)

  change_person-Agree :
      (name number : CharStar)
      → length xs + 1 < f
      → length name < 10
      → length number < 11
      → Agree p
          (suc (length xs))
          (change_person f h p name number >>= λ h'. some (h', []))
          (some (correct (record { name = name; number = number }) (y, persons xs), []))
  change_person-Agree name number fuel short short' =
      let person : Person = record { name = name; number = number } in
      elim (Bool-cases (knows name (y ∷ persons xs))) [
        | inl k ↦
            let r = change-Changed name person h p y xs c (known name k) in
            rw
              (found_change f h p name number _ r.old (sees name fuel) (known name k) r.there short
                short')
              (rw (correct-fst_snd person y (persons xs)) (
                fine r.chain (persons_changed (is_same name y.name) name person xs)
                  (length_changed (is_same name y.name) name person xs)))
        | inr k ↦
            rw
              (
                absent_change f h p name number (sees name fuel ∙ ap some (unknown name k)),
                correct_unknown person y (persons xs) k,
              )
              (fine c refl (omega arith))
      ]

  add_person-Agree :
      (name number : CharStar) (cell : ℕ)
      → length xs + 1 < f
      → length name < 10
      → length number < 11
      → h cell ≡ none
      → Agree p (suc (length xs)) (add_person f cell h p name number >>= λ h'. some (h', [])) (
          enter (record { name = name; number = number }) cell (y, persons xs) >>= λ b'.
          some (b', []))
  add_person-Agree name number cell fuel short short' free =
      let person : Person = record { name = name; number = number } in
      elim (Bool-cases (knows name (y ∷ persons xs))) [
        | inl k ↦
            rw (found_add f cell h p name number _ (sees name fuel) (known name k), k)
              (fine c refl (omega arith))
        | inr k ↦ elim (ℕ_discrete cell 0) [
          | yes e ↦
              let none_left =
                no_memory f h p name number (sees name fuel ∙ ap some (unknown name k)) in
              rw (e, none_left, k) fault
          | no ne ↦
              let (h', runs, chain) = Yields-some (
                add_person-Chain f cell h p y xs name number c (omega (arith, fuel))
                  (unknown name k) ne free short short') in
              rw (runs, k, eq_zero cell ne)
                (fine chain (persons-append xs cell person)
                  (omega (arith, length-append xs ((cell, person) ∷ []))))
        ]
      ]

  del_person-Agree :
      (name : CharStar)
      → length xs + 1 < f
      → Agree p
          (suc (length xs))
          (del_person f h p name >>= λ h'. some (h', []))
          (remove name (y, persons xs) >>= λ b'. some (b', []))
  unfolding del_person
  del_person-Agree name fuel = elim (Bool-cases (is_same name y.name)) [
    | inl s ↦
        let found : find_person f h p name ≡ some p = sees name fuel ∙ rw s refl in
        rw (found, no_pervious f h p y xs p c (Chain-out c) (Chain-ne c), s) fault
    | inr s ↦ elim (Bool-cases (knows name (persons xs))) [
      | inl k ↦
          let there : first name ((p, y) ∷ xs) ≢ 0 = known name (rw s k) in
          let found : find_person f h p name ≡ some (first name xs) = sees name fuel ∙ rw s refl in
          let (h', runs, r) =
            Yields-some (cut_out-Cut f h name p y xs c (omega (arith, fuel)) (rw s at there)) in
          rw (found, runs, s, k)
            (fine r.chain (persons-without name xs) (omega (arith, length-without name xs)))
      | inr k ↦
          let absent : first name ((p, y) ∷ xs) ≡ 0 = unknown name (rw s k) in
          rw (del_person-absent f h p y xs name c (omega (arith, fuel)) absent, s, k) fault
    ]
  ]

  is_free :
      (cell : ℕ) (name number : CharStar)
      → gives_new (add name number cell) h ≡ true
      → h cell ≡ none
  unfolding gives_new
  is_free cell name number new = elim (Option-cases (h cell)) [
    | inl e ↦ e
    | inr (n, e) ↦ ground (arith, new, e)
  ]

  choose-Agree :
      (a : Command)
      → length xs + 1 < f
      → gives_new a h ≡ true
      → Agree p (suc (length xs)) (choose f p a h) (replay_one a (y, persons xs))
  unfolding choose gives_new
  choose-Agree (add name number cell) fuel new = elim (Bool-cases (ltb (length name) 10)) [
    | inl s ↦ elim (Bool-cases (ltb (length number) 11)) [
      | inl s' ↦
          rw (s, s')
            (add_person-Agree name number cell fuel (ltb→lt _ _ s) (ltb→lt _ _ s')
              (is_free cell name number new))
      | inr s' ↦ rw (s, s') fault
    ]
    | inr s ↦ rw s fault
  ]
  choose-Agree (del name) fuel new = elim (Bool-cases (ltb (length name) 10)) [
    | inl s ↦ rw s (del_person-Agree name fuel)
    | inr s ↦ rw s fault
  ]
  choose-Agree (seek name) fuel new = elim (Bool-cases (ltb (length name) 10)) [
    | inl s ↦ rw (s, sees name fuel) (fine c refl (omega arith))
    | inr s ↦ rw s fault
  ]
  choose-Agree (alter name number) fuel new = elim (Bool-cases (ltb (length name) 10)) [
    | inl s ↦ elim (Bool-cases (ltb (length number) 11)) [
      | inl s' ↦ rw (s, s') (change_person-Agree name number fuel (ltb→lt _ _ s) (ltb→lt _ _ s'))
      | inr s' ↦ rw (s, s') fault
    ]
    | inr s ↦ rw s fault
  ]
  choose-Agree display fuel new =
      rw (display_person-map f h p y xs c fuel) (fine c refl (omega arith))
  choose-Agree leave fuel new = rw (exit_contacts-faults f h p y xs c) fault
  choose-Agree other fuel new = fine c refl (omega arith)

later_honest :
    (f p : ℕ) (a : Command) (cs : List Command) (h h' : Heap Person) (shown : List Person)
    → choose f p a h ≡ some (h', shown)
    → malloc_honest f p (a ∷ cs) h ≡ true
    → malloc_honest f p cs h' ≡ true
unfolding malloc_honest
later_honest f p a cs h h' shown e honest = ground (arith, rw (malloc_honest, e) at honest)

is_over-leaves : (a : Command) (b : Book) → is_over a ≡ true → replay_one a b ≡ none
is_over-leaves leave b over = refl
is_over-leaves (add _ _ _) b over = absurd (ground (arith, over))
is_over-leaves (del _) b over = absurd (ground (arith, over))
is_over-leaves (seek _) b over = absurd (ground (arith, over))
is_over-leaves (alter _ _) b over = absurd (ground (arith, over))
is_over-leaves display b over = absurd (ground (arith, over))
is_over-leaves other b over = absurd (ground (arith, over))

-- The menu, from any list, with fuel for the list and one contact more for each command, and with a
-- `malloc` that gives only structs not in use: either it faults and so does the replay of the commands on
-- the book, or both end, the heap holds the contacts of the book in order, and `displayPerson` has printed
-- what the replay shows.
pub main-Agree :
    (f p : ℕ) (cs : List Command) (h : Heap Person) (y : Person) (xs : Cells Person)
    → Chain h p y xs
    → length xs + length cs + 1 < f
    → malloc_honest f p cs h ≡ true
    → Agree p (length xs + length cs) (main f p cs h) (replay cs (y, persons xs))
unfolding main malloc_honest
main-Agree f p [] h y xs c fuel honest = fine c refl (omega arith)
main-Agree f p (a ∷ cs) h y xs c fuel honest =
    let new : gives_new a h ≡ true = ground (arith, honest) in
    elim (Agree-cases (choose-Agree f h p y xs c a (omega (arith, fuel)) new)) [
      | inl (e, e') ↦ rw (main, e, e') fault
      | inr r ↦ elim (Bool-cases (is_over a)) [
        | inl over ↦
            let none_left = is_over-leaves a (y, persons xs) over in
            ground (arith, none_left, r.replays)
        | inr more ↦
            let later = later_honest f p a cs h r.heap r.shown r.runs honest in
            let rest =
              main-Agree f p cs r.heap r.y r.xs r.chain (omega (arith, r.bound, fuel)) later in
            rw (main, r.runs, more, r.replays) (Agree-shown r.shown rest (omega (arith, r.bound)))
      ]
    ]
