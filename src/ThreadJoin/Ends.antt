-- ===== src/ThreadJoin/Ends.antt =====
-- thread/example.c: the program ends, with the thread's value.
use learn_c_linux.Prelude.{
  ℕ, suc, ◌+◌, ◌-◌, ◌≤◌, ◌≡◌, refl, ap, ◌∙◌, false, List, [], ◌∷◌, ◌++◌, arith,
}
use learn_c_linux.ThreadJoin.{exited, printed, initial, Who, thread, parent, schedule}
use learn_c_linux.ThreadJoin.Stages.{
  at_test, in_body, behind, Stage, fresh, counts, waits, over, reads, prints, state, next, nexts,
  schedule-nexts, nexts-append,
}

-- The turns of each side in a schedule.
abbrev pub turns_of_parent : List Who → ℕ
turns_of_parent [] = 0
turns_of_parent (thread ∷ ss) = turns_of_parent ss
turns_of_parent (parent ∷ ss) = suc (turns_of_parent ss)

abbrev pub turns_of_thread : List Who → ℕ
turns_of_thread [] = 0
turns_of_thread (thread ∷ ss) = suc (turns_of_thread ss)
turns_of_thread (parent ∷ ss) = turns_of_thread ss

-- The turns of `main` until it has cleared the flag, those of the thread from there to its end, and those of
-- `main` from there on.
abbrev to_clear : Stage → ℕ
to_clear fresh = 5
to_clear (counts i b) = 1 + (3 - i)
to_clear _ = 0

abbrev to_exit : Stage → ℕ
to_exit (waits at_test) = 2
to_exit (waits in_body) = 3
to_exit (waits behind) = 1
to_exit _ = 0

abbrev to_end : Stage → ℕ
to_end over = 2
to_end reads = 1
to_end _ = 0

clear_thread : (g : Stage) → to_clear (next thread g) ≡ to_clear g
clear_thread fresh = refl
clear_thread (counts i b) = refl
clear_thread (waits at_test) = refl
clear_thread (waits in_body) = refl
clear_thread (waits behind) = refl
clear_thread over = refl
clear_thread reads = refl
clear_thread prints = refl

clear_parent : (g : Stage) → to_clear (next parent g) ≡ to_clear g - 1
clear_parent fresh = refl
clear_parent (counts i b) = ground arith
clear_parent (waits p) = refl
clear_parent over = refl
clear_parent reads = refl
clear_parent prints = refl

exit_turn :
    (g : Stage)
    → to_clear g ≡ 0
    → (to_exit (next thread g) ≡ to_exit g - 1) × (to_exit (next parent g) ≡ to_exit g)
exit_turn fresh e = absurd (omega (arith, e))
exit_turn (counts i b) e = absurd (omega (arith, e))
exit_turn (waits at_test) e = (refl, refl)
exit_turn (waits in_body) e = (refl, refl)
exit_turn (waits behind) e = (refl, refl)
exit_turn over e = (refl, refl)
exit_turn reads e = (refl, refl)
exit_turn prints e = (refl, refl)

end_turn :
    (g : Stage)
    → to_clear g ≡ 0
    → to_exit g ≡ 0
    → (to_end (next thread g) ≡ to_end g) × (to_end (next parent g) ≡ to_end g - 1)
end_turn fresh e x = absurd (omega (arith, e))
end_turn (counts i b) e x = absurd (omega (arith, e))
end_turn (waits at_test) e x = absurd (omega (arith, x))
end_turn (waits in_body) e x = absurd (omega (arith, x))
end_turn (waits behind) e x = absurd (omega (arith, x))
end_turn over e x = (refl, refl)
end_turn reads e x = (refl, refl)
end_turn prints e x = (refl, refl)

at_end : (g : Stage) → to_clear g ≡ 0 → to_exit g ≡ 0 → to_end g ≡ 0 → g ≡ prints
at_end fresh e x d = absurd (omega (arith, e))
at_end (counts i b) e x d = absurd (omega (arith, e))
at_end (waits at_test) e x d = absurd (omega (arith, x))
at_end (waits in_body) e x d = absurd (omega (arith, x))
at_end (waits behind) e x d = absurd (omega (arith, x))
at_end over e x d = absurd (omega (arith, d))
at_end reads e x d = absurd (omega (arith, d))
at_end prints e x d = refl

nexts-clear :
    (ss : List Who) (g : Stage) → to_clear g ≤ turns_of_parent ss → to_clear (nexts ss g) ≡ 0
nexts-clear [] g le = omega (arith, le)
nexts-clear (thread ∷ ss) g le = nexts-clear ss (next thread g) (omega (arith, le, clear_thread g))
nexts-clear (parent ∷ ss) g le = nexts-clear ss (next parent g) (omega (arith, le, clear_parent g))

nexts-exit :
    (ss : List Who) (g : Stage)
    → to_clear g ≡ 0
    → to_exit g ≤ turns_of_thread ss
    → (to_clear (nexts ss g) ≡ 0) × (to_exit (nexts ss g) ≡ 0)
nexts-exit [] g e le = (e, omega (arith, le))
nexts-exit (thread ∷ ss) g e le =
    nexts-exit ss (next thread g) (clear_thread g ∙ e) (omega (arith, le, (exit_turn g e).0))
nexts-exit (parent ∷ ss) g e le =
    nexts-exit ss (next parent g) (omega (arith, e, clear_parent g))
      (omega (arith, le, (exit_turn g e).1))

nexts-end :
    (ss : List Who) (g : Stage)
    → to_clear g ≡ 0
    → to_exit g ≡ 0
    → to_end g ≤ turns_of_parent ss
    → nexts ss g ≡ prints
nexts-end [] g e x le = at_end g e x (omega (arith, le))
nexts-end (thread ∷ ss) g e x le =
    nexts-end ss (next thread g) (clear_thread g ∙ e) (omega (arith, x, (exit_turn g e).0))
      (omega (arith, le, (end_turn g e x).0))
nexts-end (parent ∷ ss) g e x le =
    nexts-end ss (next parent g) (omega (arith, e, clear_parent g))
      (omega (arith, x, (exit_turn g e).1)) (omega (arith, le, (end_turn g e x).1))

exit_le : (g : Stage) → to_exit g ≤ 3
exit_le fresh = omega arith
exit_le (counts i b) = omega arith
exit_le (waits at_test) = omega arith
exit_le (waits in_body) = omega arith
exit_le (waits behind) = omega arith
exit_le over = omega arith
exit_le reads = omega arith
exit_le prints = omega arith

end_le : (g : Stage) → to_end g ≤ 2
end_le fresh = omega arith
end_le (counts i b) = omega arith
end_le (waits p) = omega arith
end_le over = omega arith
end_le reads = omega arith
end_le prints = omega arith

-- Where the thread can be created, every schedule that gives `main` five turns, then the thread three, and
-- then `main` two, with any turns of the other in between, ends the program: the thread has ended, and
-- `main` has printed 8.
pub schedule-ends :
    (a b c : List Who)
    → 5 ≤ turns_of_parent a
    → 3 ≤ turns_of_thread b
    → 2 ≤ turns_of_parent c
    → schedule 0 (a ++ (b ++ c)) initial
      ≡ record { run = false; retvalue = 8; routine = exited; main = printed 8 }
schedule-ends a b c clear exit end =
    let g = nexts a fresh in
    let at_clear = nexts-clear a fresh clear in
    let (still, at_exit) = nexts-exit b g at_clear (omega (arith, exit, exit_le g)) in
    let last = nexts-end c (nexts b g) still at_exit (omega (arith, end, end_le (nexts b g))) in
    schedule-nexts (a ++ (b ++ c)) fresh
    ∙ ap state (nexts-append a (b ++ c) fresh ∙ (nexts-append b c g ∙ last))
