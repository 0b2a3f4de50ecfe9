-- ===== src/Chat.antt =====
-- practise/chat/server.c: the array of clients in the shared memory, which the processes that serve them
-- read. `none` is an access outside the memory.
pub mod Table
pub mod Server
mod Tests
use learn_c_linux.Prelude.{
  ℕ, zero, suc, ◌+◌, ◌-◌, ◌==◌, ltb, if◌then◌else◌, Option, none, some, List, [], ◌∷◌, length, set,
}
use learn_c_linux.Prelude.Int.{ℤ, pos, negsuc}

-- `count` is the static variable of `push_fd`.
pub record Clients : Type 0 where
  pub client_fds : List ℕ
  pub count : ℕ

unfoldable pub push_fd : ℕ → ℕ → Clients → Option (ℤ × Clients)
push_fd fd len s =
    if s.count == len - 1
    then some (negsuc 0, s)
    else if ltb (s.count + 1) (length s.client_fds)
    then some (
      pos 0,
      record {
        client_fds = set (set s.client_fds s.count fd) (s.count + 1) 0;
        count = s.count + 1;
      },
    )
    else none

-- The descriptors to which the loop of `server_handle` writes a message.
unfoldable pub receivers : List ℕ → Option (List ℕ)
receivers [] = none
receivers (zero ∷ fds) = some []
receivers (suc k ∷ fds) = elim (receivers fds) [ none ↦ none | some rest ↦ some (suc k ∷ rest) ]
