-- ===== src/ThreadJoin/Stages.antt =====
-- thread/example.c: the states that can be reached when there is a thread, and the turns in them.
use learn_c_linux.Prelude.{
  ℕ, ◌+◌, ◌≡◌, refl, ap, ◌∙◌, Bool, true, false, List, [], ◌∷◌, ◌++◌, ltb, if◌then◌else◌,
  Bool-cases, inl, inr,
}
use learn_c_linux.ThreadJoin.{
  times, Routine, testing, working, leaving, exited, Main, counting, joining, reading, printed,
  Threads, initial, start_routine, joined, main_step, Who, thread, parent, turn_of, schedule,
}

-- The places of a thread that has not come to its end.
pub data Place : Type 0 where
  at_test : Place
  in_body : Place
  behind : Place

abbrev pub routine_at : Place → Routine
routine_at at_test = testing
routine_at in_body = working
routine_at behind = leaving

-- The states that can be reached when the thread could be created. The number is the count of the loop in
-- `main`, and the truth value says that the thread is in its body.
pub data Stage : Type 0 where
  fresh : Stage
  counts : ℕ → Bool → Stage
  waits : Place → Stage
  over : Stage
  reads : Stage
  prints : Stage

abbrev pub place_of : Bool → Place
place_of true = in_body
place_of false = at_test

-- With the flag clear.
abbrev pub cleared : ℕ → Routine → Main → Threads
cleared value r m = record { run = false; retvalue = value; routine = r; main = m }

abbrev pub state : Stage → Threads
state fresh = initial
state (counts i b) = record {
  run = true;
  retvalue = 0;
  routine = routine_at (place_of b);
  main = counting i;
}
state (waits p) = cleared 0 (routine_at p) joining
state over = cleared 8 exited joining
state reads = cleared 8 exited reading
state prints = cleared 8 exited (printed 8)

abbrev pub next : Who → Stage → Stage
next thread fresh = fresh
next thread (counts i b) = counts i (if b then false else true)
next thread (waits at_test) = waits behind
next thread (waits in_body) = waits at_test
next thread (waits behind) = over
next thread over = over
next thread reads = reads
next thread prints = prints
next parent fresh = counts 0 false
next parent (counts i b) = if ltb i times then counts (i + 1) b else waits (place_of b)
next parent (waits p) = waits p
next parent over = reads
next parent reads = prints
next parent prints = prints

abbrev pub nexts : List Who → Stage → Stage
nexts [] g = g
nexts (s ∷ ss) g = nexts ss (next s g)

turn_of-next : (s : Who) (g : Stage) → turn_of 0 s (state g) ≡ state (next s g)
unfolding turn_of start_routine main_step joined
turn_of-next thread fresh = refl
turn_of-next thread (counts i true) = refl
turn_of-next thread (counts i false) = refl
turn_of-next thread (waits at_test) = refl
turn_of-next thread (waits in_body) = refl
turn_of-next thread (waits behind) = refl
turn_of-next thread over = refl
turn_of-next thread reads = refl
turn_of-next thread prints = refl
turn_of-next parent fresh = refl
turn_of-next parent (counts i b) = elim (Bool-cases (ltb i times)) [
  | inl more ↦ rw (more, main_step) refl
  | inr last ↦ rw (last, main_step) refl
]
turn_of-next parent (waits at_test) = refl
turn_of-next parent (waits in_body) = refl
turn_of-next parent (waits behind) = refl
turn_of-next parent over = refl
turn_of-next parent reads = refl
turn_of-next parent prints = refl

pub schedule-nexts : (ss : List Who) (g : Stage) → schedule 0 ss (state g) ≡ state (nexts ss g)
unfolding schedule
schedule-nexts [] g = refl
schedule-nexts (s ∷ ss) g = ap (schedule 0 ss) (turn_of-next s g) ∙ schedule-nexts ss (next s g)

pub nexts-append : (ss us : List Who) (g : Stage) → nexts (ss ++ us) g ≡ nexts us (nexts ss g)
nexts-append [] us g = refl
nexts-append (s ∷ ss) us g = nexts-append ss us (next s g)
