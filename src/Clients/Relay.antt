-- ===== src/Clients/Relay.antt =====
-- socket/exmaple/TCP/client.c: what reaches the server and the terminal.
use learn_c_linux.Prelude.{
  ℕ, zero, suc, ◌≤◌, ◌≡◌, ◌≢◌, refl, Option, none, some, List, [], ◌∷◌, ◌++◌, length, take,
  take-all, map, All, arith, ◌==◌, if◌then◌else◌,
}
use learn_c_linux.Prelude.Int.{ℤ, pos}
use learn_c_linux.Sys.{Answer, returned, run_on}
use learn_c_linux.Sockets.{SocketCall, recv, send, raw}
use learn_c_linux.Clients.{client_handle}

-- What is written on the descriptor `fd`, each time with the size that is given.
abbrev written_by : ℕ → SocketCall → List (List ℕ × ℤ)
written_by fd (send (pos n) (raw bytes) len) = if n == fd then (bytes, len) ∷ [] else []
written_by fd _ = []

abbrev pub written : ℕ → List (SocketCall × Answer) → List (List ℕ × ℤ)
written fd [] = []
written fd ((c, a) ∷ t) = written_by fd c ++ written fd t

-- A line and its answer, neither of them empty: the first byte and the rest of each.
pub record Exchange : Type 0 where
  pub typed : ℕ × List ℕ
  pub answer : ℕ × List ℕ

abbrev pub text : ℕ × List ℕ → List ℕ
text (b, bytes) = b ∷ bytes

-- A text with its own size.
abbrev pub whole : List ℕ → List ℕ × ℤ
whole bytes = (bytes, pos (length bytes))

-- What the terminal and the server have still to say.
pub record Talk : Type 0 where
  pub lines : List (List ℕ)
  pub replies : List (List ℕ)

-- The next text, of which no more than `n` bytes are read at once.
abbrev pub next : ℕ → List (List ℕ) → (List (List ℕ) → Talk) → Option (Answer × Talk)
next n [] left = none
next n (t ∷ ts) left = some (record { res = pos (length (take n t)); bytes = take n t }, left ts)

-- The kernel reads the terminal on 0 and the server on any other descriptor, and writes all that it is given.
abbrev pub talk : Talk → SocketCall → Option (Answer × Talk)
talk s (recv (pos zero) n) = next n s.lines λ ts. record s { lines = ts }
talk s (recv (pos (suc fd)) n) = next n s.replies λ ts. record s { replies = ts }
talk s (send fd t len) = some (returned len, s)
talk s _ = none

abbrev pub talk_of : List Exchange → Talk
talk_of es = record { lines = map (λ e. text e.typed) es; replies = map (λ e. text e.answer) es }

-- Neither text is longer than the buffer.
abbrev pub Fits : Exchange → Type 0
Fits e = (length (text e.typed) ≤ 1024) × (length (text e.answer) ≤ 1024)

-- Over any number of rounds, with lines and answers that fit the buffer of 1024 bytes and are not empty,
-- exactly what was typed is written to the server, and exactly what the server answered to the terminal, in
-- order, each text once and with its own size.
pub client_handle-relays :
    (s : ℕ) (es : List Exchange)
    → suc s ≢ 1
    → All Fits es
    → let trace = run_on talk (talk_of es) (client_handle (length es) (pos (suc s))) in
      (written (suc s) trace ≡ map (λ e. whole (text e.typed)) es)
      × (written 1 trace ≡ map (λ e. whole (text e.answer)) es)
unfolding client_handle
client_handle-relays s [] apart fits = (refl, refl)
client_handle-relays s (e ∷ es) apart fits =
    let rest = client_handle-relays s es apart fits.1 in
    let line = take-all 1023 e.typed.1 (omega (arith, fits.0.0)) in
    let reply = take-all 1023 e.answer.1 (omega (arith, fits.0.1)) in
    (
      rw (line, reply) (ground (arith, apart, rest.0)),
      rw (line, reply) (ground (arith, apart, rest.1)),
    )
