-- ===== src/ThreadServer/Tests.antt =====
-- Runs of practise/chat/thread_server.c, and its theorem at concrete inputs.
use learn_c_linux.Prelude.{◌≡◌, refl, none, some, List, [], ◌∷◌, replicate}
use learn_c_linux.Prelude.Int.{ℤ, pos, negsuc}
use learn_c_linux.ThreadServer.{Slots, initial, serve, told, client_thread}

-- Two clients come; the thread of the first is not made.
abbrev events : List (ℤ × ℤ)
events = (pos 4, pos 11) ∷ (negsuc 0, pos 0) ∷ (pos 5, pos 0) ∷ []

abbrev full : Slots
full = record { cs_fds = replicate 10 7; count = 10 }

two_rounds : serve events initial ≡ some (record { cs_fds = 5 ∷ replicate 9 0; count = 1 })
unfolding serve
two_rounds = refl

-- With every slot in use a message is copied to what lies behind the array, too.
full_broadcast : client_thread 0 (pos 3) full ≡ none
unfolding client_thread
full_broadcast = refl

one_told : client_thread 0 (pos 3) (record full { cs_fds = 5 ∷ 0 ∷ [] }) ≡ some (told (5 ∷ []))
unfolding client_thread
one_told = refl
