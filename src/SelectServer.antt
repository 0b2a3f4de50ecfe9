-- ===== src/SelectServer.antt =====
-- socket/io_model/select.c: the clients' descriptors, and one turn of the server's loop. What `select`
-- reports ready, what `recv` returns and what `accept` returns come in as arguments; `none` is an access
-- outside `fds`.
pub mod Bounds
pub mod Turn
pub mod SetUp
mod Tests
use learn_c_linux.Prelude.{
  ℕ, zero, suc, ◌+◌, ◌-◌, Bool, true, false, not, Option, none, some, List, [], ◌∷◌, ◌++◌, ltb, leb,
  ◌==◌, if◌then◌else◌, get_elem?, set, take, replicate, ◌>>=◌,
}
use learn_c_linux.Prelude.Int.{ℤ, pos, negsuc, ltb_ℤ}

abbrev pub max_clients : ℕ
max_clients = 10

-- `closed` has the descriptors closed so far, and `sent` the messages: the client each is about, and
-- the one it goes to.
pub record Server : Type 0 where
  pub fds : List ℕ
  pub connections : ℕ
  pub closed : List ℕ
  pub sent : List (ℕ × ℕ)

-- The loop of `max_client` from the second descriptor on.
unfoldable pub max_from : ℕ → List ℕ → ℕ
max_from tmp [] = tmp
max_from tmp (fd ∷ fds) = max_from (if ltb tmp fd then fd else tmp) fds

unfoldable pub max_client : List ℕ → ℕ → Option ℕ
unfolding max_from
max_client [] ss = none
max_client (fd ∷ fds) ss = let tmp = max_from fd fds in some (if ltb ss tmp then tmp else ss)

-- The loop that counts the connections and puts their descriptors into both sets.
unfoldable pub count_clients : List ℕ → ℕ
count_clients [] = 0
count_clients (fd ∷ fds) = if fd == 0 then count_clients fds else suc (count_clients fds)

-- The messages that go to every client.
unfoldable pub broadcast : ℕ → List ℕ → List (ℕ × ℕ)
broadcast c_fd [] = []
broadcast c_fd (fd ∷ fds) = if fd == 0 then broadcast c_fd fds else (c_fd, fd) ∷ broadcast c_fd fds

pub record Handled : Type 0 where
  pub res : ℤ
  pub server : Server

-- `size` is what `recv` returns.
unfoldable pub server_handle : ℕ → ℤ → Server → Handled
unfolding broadcast
server_handle c_fd size s =
    if ltb_ℤ (pos 0) size
    then record { res = pos 0; server = record s { sent = s.sent ++ broadcast c_fd s.fds } }
    else record { res = negsuc 0; server = record s { closed = c_fd ∷ s.closed } }

-- The body of the loop over the ready clients.
unfoldable pub serve_client : ℕ → ℕ → ℤ → Server → Server
unfolding server_handle
serve_client i fd size s =
    let handled = server_handle fd size s in
    let after = handled.server in
    if ltb_ℤ handled.res (pos 0)
    then record after { fds = set after.fds i 0; connections = after.connections - 1 }
    else after

-- The loop, with `n` clients left from index `i`. A descriptor of 0 is in neither set.
unfoldable pub serve : (ℕ → Bool) → (ℕ → ℤ) → ℕ → ℕ → Server → Option Server
unfolding serve_client
serve is_ready size zero i s = some s
serve is_ready size (suc n) i s = elim (get_elem? s.fds i) [
  | none ↦ none
  | some zero ↦ serve is_ready size n (i + 1) s
  | some (suc k) ↦
      let s' = if is_ready (suc k) then serve_client i (suc k) (size (suc k)) s else s in
      serve is_ready size n (i + 1) s'
]

-- What the server does with what `accept` returns. A client that is turned away is told so and closed; an
-- other is announced to the first `connections` descriptors, where these are in the set `wd`.
unfoldable pub accept_client : (ℕ → Bool) → ℤ → Server → Option Server
unfolding broadcast
accept_client in_wd (negsuc _) s = some s
accept_client in_wd (pos cs) s =
    if leb max_clients (s.connections + 1)
    then some (record s { closed = cs ∷ s.closed; sent = s.sent ++ ((cs, cs) ∷ []) })
    else elim (get_elem? s.fds s.connections) [
      | none ↦ none
      | some _ ↦
          let fds' = set s.fds s.connections cs in
          some (record s {
            fds = fds';
            connections = s.connections + 1;
            sent = s.sent ++ broadcast cs (only in_wd (take (s.connections + 1) fds'));
          })
    ]
  where
    only : (ℕ → Bool) → List ℕ → List ℕ
    only p [] = []
    only p (fd ∷ fds) = if p fd then fd ∷ only p fds else only p fds

-- One turn, when `select` reports something: `new` is what `accept` returns when the server's own
-- descriptor is ready.
unfoldable pub turn : (ℕ → Bool) → (ℕ → Bool) → (ℕ → ℤ) → Option ℤ → Server → Option Server
unfolding count_clients serve accept_client
turn is_ready in_wd size new s =
    let counted = record s { connections = count_clients s.fds } in
    elim (serve is_ready size max_clients 0 counted) [
      | none ↦ none
      | some served ↦ elim new [ none ↦ some served | some cs ↦ accept_client in_wd cs served ]
    ]

-- What happens in one pass through the loop of `main`: `select` fails or times out, and the pass ends there, or
-- it reports something.
pub data Pass : Type 0 where
  quiet : Pass
  reported : (ℕ → Bool) → (ℕ → Bool) → (ℕ → ℤ) → Option ℤ → Pass

unfoldable pub pass : Pass → Server → Option Server
unfolding turn count_clients
pass quiet s = some (record s { connections = count_clients s.fds })
pass (reported is_ready in_wd size new) s = turn is_ready in_wd size new s

-- The globals of the program.
abbrev pub initial : Server
initial = record { fds = replicate max_clients 0; connections = 0; closed = []; sent = [] }

-- The passes in order.
unfoldable pub passes : List Pass → Server → Option Server
unfolding pass
passes [] s = some s
passes (p ∷ ps) s = pass p s >>= λ s'. passes ps s'
