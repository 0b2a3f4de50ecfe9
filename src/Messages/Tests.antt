-- ===== src/Messages/Tests.antt =====
-- Runs of process/communication/msg/msg.c, and its theorems at them.
use learn_c_linux.Prelude.{◌≡◌, refl, true, none, List, [], ◌∷◌, arith}
use learn_c_linux.Prelude.Int.{pos}
use learn_c_linux.Sys.{Answer, returned, refused, run, obeys, final}
use learn_c_linux.Messages.{main}
use learn_c_linux.Messages.Kernel.{silence}
use learn_c_linux.Messages.Queue.{main-obeys-silence}

abbrev ok : Answer
ok = returned (pos 0)

-- The key is 9 and the queue 5; the message is not received, and the queue is removed.
abbrev not_received : List Answer
not_received = returned (pos 9) ∷ returned (pos 5) ∷ ok ∷ ok ∷ ok ∷ refused ∷ ok ∷ ok ∷ ok ∷ ok ∷ []

removed : final (silence (λ t. t)) none (run main not_received) ≡ none
unfolding main
removed = refl

main-obeys-silence_example : obeys (silence (λ t. t)) none (run main not_received) ≡ true
unfolding main
main-obeys-silence_example = main-obeys-silence (λ t. t) not_received (omega arith) refl
