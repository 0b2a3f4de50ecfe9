-- ===== src/ThreadServer/Room.antt =====
-- practise/chat/thread_server.c: for how many clients the slots are enough.
use learn_c_linux.Prelude.{ℕ, zero, suc, ◌+◌, ◌-◌, ◌≤◌, ◌≡◌, List, [], ◌∷◌, ◌++◌, length, replicate}
use learn_c_linux.Prelude.Int.{ℤ, pos, negsuc}
use learn_c_linux.ThreadServer.{Slots}

-- The client of a round, where a thread was made for it.
abbrev pub kept : ℤ → ℤ → List ℕ
kept (pos cs) (pos zero) = cs ∷ []
kept (pos cs) (pos (suc n)) = []
kept (pos cs) (negsuc n) = []
kept (negsuc n) res = []

abbrev pub served : List (ℤ × ℤ) → List ℕ
served [] = []
served ((cs, res) ∷ events) = kept cs res ++ served events

-- The first slots hold the clients `cs`, and the others are 0.
pub record Holds (cs : List ℕ) (s : Slots) : Type 0 where
  pub slots : s.cs_fds ≡ cs ++ replicate (10 - length cs) 0
  pub counted : s.count ≡ length cs
  pub room : length cs ≤ 10

-- The slots behind the first free one.
abbrev others : List ℕ → List ℕ
others cs = replicate (10 - (length cs + 1)) 0
