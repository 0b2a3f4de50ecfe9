-- ===== src/ThreadServer.antt =====
-- practise/chat/thread_server.c: the slots of the clients, which one thread fills and the clients' threads
-- read. `none` is an access outside `cs_fds`.
pub mod Room
pub mod Process
mod Tests
use learn_c_linux.Prelude.{
  ℕ, zero, suc, ◌+◌, Option, none, some, List, [], ◌∷◌, set, get_elem?, replicate, ltb,
  if◌then◌else◌, length, ◌>>=◌,
}
use learn_c_linux.Prelude.Int.{ℤ, pos, negsuc}
use learn_c_linux.Chat.{receivers}

pub record Slots : Type 0 where
  pub cs_fds : List ℕ
  pub count : ℕ

abbrev pub initial : Slots
initial = record { cs_fds = replicate 10 0; count = 0 }

-- A write through `cs_fds[i]`.
unfoldable pub put_slot : Slots → ℕ → Option Slots
put_slot s fd =
    if ltb s.count (length s.cs_fds)
    then some (record s { cs_fds = set s.cs_fds s.count fd })
    else none

-- What `pthread_create` returns decides whether the slot is kept.
unfoldable pub keep_slot : ℤ → Slots → Option Slots
unfolding put_slot
keep_slot (pos zero) s = some (record s { count = s.count + 1 })
keep_slot (pos (suc n)) s = put_slot s 0
keep_slot (negsuc n) s = put_slot s 0

-- One round of the loop of `main`, with the results of `accept` and of `pthread_create`.
unfoldable pub serve_one : ℤ → ℤ → Slots → Option Slots
unfolding put_slot keep_slot
serve_one (negsuc n) res s = some s
serve_one (pos cs) res s = elim (put_slot s cs) [ none ↦ none | some s' ↦ keep_slot res s' ]

unfoldable pub serve : List (ℤ × ℤ) → Slots → Option Slots
unfolding serve_one
serve [] s = some s
serve ((cs, res) ∷ events) s = elim (serve_one cs res s) [ none ↦ none | some s' ↦ serve events s' ]

-- What a thread of a client does with the result of one `read`: whom it writes to.
pub data Round : Type 0 where
  left : ℕ → Round
  told : List ℕ → Round

-- `client_thread` reads the descriptor anew from its slot in each round.
unfoldable pub client_thread : ℕ → ℤ → Slots → Option Round
unfolding receivers
client_thread slot (pos (suc n)) s = elim (receivers s.cs_fds) [
  | none ↦ none
  | some fds ↦ some (told fds)
]
client_thread slot size s = elim (get_elem? s.cs_fds slot) [
  | none ↦ none
  | some fd ↦ some (left fd)
]
