-- ===== src/ThreadJoin/Tests.antt =====
-- A run of thread/example.c, and its theorem at it.
use learn_c_linux.Prelude.{◌≡◌, refl, true, false, List, [], ◌∷◌, ◌++◌, arith}
use learn_c_linux.ThreadJoin.{
  exited, unborn, printed, joining, failed, leaving, initial, Who, thread, parent, schedule,
}
use learn_c_linux.ThreadJoin.Ends.{schedule-ends}

-- `main` waits for a thread that has not seen yet that the flag is clear.
waiting :
    schedule 0
      (parent ∷ thread ∷ parent ∷ parent ∷ parent ∷ parent ∷ parent ∷ thread ∷ thread ∷ [])
      initial
    ≡ record { run = false; retvalue = 0; routine = leaving; main = joining }
unfolding schedule
waiting = refl

no_thread :
    schedule 11 (parent ∷ parent ∷ thread ∷ []) initial
    ≡ record { run = true; retvalue = 0; routine = unborn; main = failed }
unfolding schedule
no_thread = refl

abbrev counting_down : List Who
counting_down = parent ∷ thread ∷ parent ∷ parent ∷ thread ∷ parent ∷ parent ∷ []

abbrev leaving_loop : List Who
leaving_loop = thread ∷ parent ∷ thread ∷ thread ∷ []

schedule-ends_example :
    schedule 0 (counting_down ++ (leaving_loop ++ (parent ∷ parent ∷ []))) initial
    ≡ record { run = false; retvalue = 8; routine = exited; main = printed 8 }
schedule-ends_example =
    schedule-ends counting_down leaving_loop (parent ∷ parent ∷ []) (omega arith) (omega arith)
      (omega arith)
