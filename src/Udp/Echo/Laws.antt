-- ===== src/Udp/Echo/Laws.antt =====
-- socket/exmaple/UDP/server.c: what it sends.
use learn_c_linux.Prelude.{
  ℕ, suc, ◌≡◌, refl, ap, true, false, Option, none, some, List, [], ◌∷◌, length, take, arith, map,
}
use learn_c_linux.Prelude.Int.{ℤ, pos, negsuc}
use learn_c_linux.Sys.{Answer, returned, run, run_on, obeys}
use learn_c_linux.Sockets.{SocketCall, Net, bound, sockets, sendto, recvfrom, raw}
use learn_c_linux.Udp.Echo.{udpserver_echo}

-- The datagrams sent, each with the size that was given.
abbrev pub sent : List (SocketCall × Answer) → List (List ℕ × ℤ)
sent [] = []
sent ((sendto fd (raw bytes) n, a) ∷ t) = (bytes, n) ∷ sent t
sent ((c, a) ∷ t) = sent t

-- The next datagram, of which no more than `n` bytes are handed over: what does not fit is lost.
abbrev next : ℕ → List (List ℕ) → Option (Answer × List (List ℕ))
next n [] = none
next n (d ∷ ds) = some (record { res = pos (length (take n d)); bytes = take n d }, ds)

-- The kernel hands the datagrams over, one after the other, and sends what it is given.
abbrev pub network : List (List ℕ) → SocketCall → Option (Answer × List (List ℕ))
network ds (recvfrom fd n) = next n ds
network ds (sendto fd t n) = some (returned n, ds)
network ds _ = none

-- The first 1024 bytes of a datagram, with their number.
abbrev pub echo : List ℕ → List ℕ × ℤ
echo d = (take 1024 d, pos (length (take 1024 d)))

echoes :
    (s : ℕ) (net : Net) (ds : List (List ℕ))
    → net s ≡ bound
    → (sent (run_on network ds (udpserver_echo (length ds) (pos s))) ≡ map echo ds)
      × (obeys sockets net (run_on network ds (udpserver_echo (length ds) (pos s))) ≡ true)
unfolding udpserver_echo
echoes s net [] h = (refl, refl)
echoes s net (d ∷ ds) h =
    let rest = echoes s net ds h in (ap (λ t. echo d ∷ t) rest.0, ground (arith, h, rest.1))

-- Of every datagram the first 1024 bytes, which are all of it where it is no longer, are sent back as they
-- came, in order, with calls that are allowed on a bound socket; after a `recvfrom` that fails, a negative
-- size is sent, which is not allowed.
pub udpserver_echo-echoes :
    (s n k : ℕ) (net : Net) (ds : List (List ℕ)) (a : Answer)
    → net s ≡ bound
    → (sent (run_on network ds (udpserver_echo (length ds) (pos s))) ≡ map echo ds)
      × (obeys sockets net (run_on network ds (udpserver_echo (length ds) (pos s))) ≡ true)
      × (obeys sockets net (run (udpserver_echo (suc n) (pos s)) (returned (negsuc k) ∷ a ∷ []))
          ≡ false)
unfolding udpserver_echo
udpserver_echo-echoes s n k net ds a h =
    let sends = echoes s net ds h in (sends.0, sends.1, ground (arith, h))
