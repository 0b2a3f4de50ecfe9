-- ===== src/ThreadJoin.antt =====
-- thread/example.c: a thread that runs until `main` clears a flag, and the value that it leaves for
-- `pthread_join`. Printing and sleeping are left out; `created` is what `pthread_create` returns.
pub mod Stages
pub mod Ends
mod Tests
use learn_c_linux.Prelude.{ℕ, ◌+◌, Bool, true, false, List, [], ◌∷◌, ltb, ◌==◌, if◌then◌else◌}

abbrev pub times : ℕ
times = 3

-- Where `start_routine` stands: before there is a thread, at the test of its loop, in the body, behind the
-- loop, or at its end.
pub data Routine : Type 0 where
  unborn : Routine
  testing : Routine
  working : Routine
  leaving : Routine
  exited : Routine

-- Where `main` stands: before `pthread_create`, at the test of its loop, in `pthread_join`, at the read
-- through `ret_join`, or at its end, where it has printed the value or returned 1.
pub data Main : Type 0 where
  creating : Main
  counting : ℕ → Main
  joining : Main
  reading : Main
  printed : ℕ → Main
  failed : Main

pub record Threads : Type 0 where
  pub run : Bool
  pub retvalue : ℕ
  pub routine : Routine
  pub main : Main

abbrev pub initial : Threads
initial = record { run = true; retvalue = 0; routine = unborn; main = creating }

unfoldable pub start_routine : Threads → Threads
start_routine t = elim t.routine [
  | unborn ↦ t
  | testing ↦ record t { routine = if t.run then working else leaving }
  | working ↦ record t { routine = testing }
  | leaving ↦ record t { retvalue = 8; routine = exited }
  | exited ↦ t
]

-- `pthread_join` waits for the end of the thread.
unfoldable pub joined : Routine → Main
joined exited = reading
joined _ = joining

unfoldable pub main_step : ℕ → Threads → Threads
unfolding joined
main_step created t = elim t.main [
  | creating ↦
      if created == 0
      then record t { routine = testing; main = counting 0 }
      else record t { main = failed }
  | counting i ↦
      if ltb i times
      then record t { main = counting (i + 1) }
      else record t { run = false; main = joining }
  | joining ↦ record t { main = joined t.routine }
  | reading ↦ record t { main = printed t.retvalue }
  | printed v ↦ t
  | failed ↦ t
]

pub data Who : Type 0 where
  thread : Who
  parent : Who

unfoldable pub turn_of : ℕ → Who → Threads → Threads
unfolding start_routine main_step
turn_of created thread t = start_routine t
turn_of created parent t = main_step created t

-- The threads' turns in the order in which they are scheduled; one that waits does nothing in its turn.
unfoldable pub schedule : ℕ → List Who → Threads → Threads
unfolding turn_of
schedule created [] t = t
schedule created (s ∷ ss) t = schedule created ss (turn_of created s t)
