-- ===== src/SelectServer/Turn.antt =====
-- socket/io_model/select.c: a turn of the loop stays inside the table of clients.
use learn_c_linux.Prelude.{
  ℕ, zero, suc, ◌+◌, ◌<◌, ◌≡◌, ◌≢◌, refl, ◌∙◌, Bool, false, leb, ◌==◌, if◌then◌else◌, Bool-cases,
  inl, inr, Option, none, some, List, [], ◌∷◌, length, get_elem?, get_elem?-in, get_elem?-set_self,
  set, length-set, arith, total, total-set, Yields, yields, Yields-some,
}
use learn_c_linux.Prelude.Int.{ℤ, pos, negsuc, ltb_ℤ}
use learn_c_linux.SelectServer.{
  Server, max_clients, count_clients, server_handle, serve_client, serve, accept_client, turn, Pass,
  quiet, reported, pass, passes, initial,
}

abbrev weight : ℕ → ℕ
weight fd = if fd == 0 then 0 else 1

count_clients-total : (fds : List ℕ) → count_clients fds ≡ total weight fds
unfolding count_clients
count_clients-total [] = refl
count_clients-total (fd ∷ fds) = ground (arith, count_clients-total fds)

count_clients-set :
    (fds : List ℕ) (i old new : ℕ)
    → get_elem? fds i ≡ some old
    → count_clients (set fds i new) + weight old ≡ count_clients fds + weight new
count_clients-set fds i old new h =
    rw (count_clients-total fds, count_clients-total (set fds i new))
      (total-set weight fds i old new h)

-- The table has its ten places, and one at least is free.
pub record IsServer (s : Server) : Type 0 where
  pub size : length s.fds ≡ max_clients
  pub free : count_clients s.fds < max_clients

-- And the clients are counted right.
record IsCounted (s : Server) : Type 0 where
  size : length s.fds ≡ max_clients
  free : count_clients s.fds < max_clients
  counted : s.connections ≡ count_clients s.fds

serve_client-IsCounted :
    (i k : ℕ) (size : ℤ) (s : Server)
    → get_elem? s.fds i ≡ some (suc k)
    → IsCounted s
    → IsCounted (serve_client i (suc k) size s)
unfolding serve_client server_handle
serve_client-IsCounted i k size s at v =
    let one = count_clients-set s.fds i (suc k) 0 at in
    let left : count_clients (set s.fds i 0) + 1 ≡ count_clients s.fds = ground (arith, one) in
    elim (Bool-cases (ltb_ℤ (pos 0) size)) [
      | inl e ↦ rw e (record { size = v.size; free = v.free; counted = v.counted })
      | inr e ↦ rw e (record {
        size = length-set s.fds i 0 ∙ v.size;
        free = omega (arith, left, v.free);
        counted = omega (arith, left, v.counted);
      })
    ]

serve-IsCounted :
    (is_ready : ℕ → Bool) (size : ℕ → ℤ) (n i : ℕ) (s : Server)
    → i + n ≡ max_clients
    → IsCounted s
    → Yields IsCounted (serve is_ready size n i s)
unfolding serve
serve-IsCounted is_ready size zero i s e v = yields v
serve-IsCounted is_ready size (suc n) i s e v =
    let (fd, at) = get_elem?-in s.fds i (omega (arith, v.size)) in
    serve_at fd at λ s' v'. serve-IsCounted is_ready size n (i + 1) s' (omega arith) v'
  where
    serve_at :
        (fd : ℕ)
        → get_elem? s.fds i ≡ some fd
        → ((s' : Server) → IsCounted s' → Yields IsCounted (serve is_ready size n (i + 1) s'))
        → Yields IsCounted (serve is_ready size (suc n) i s)
    serve_at zero at again = rw (serve, at) (again s v)
    serve_at (suc k) at again = elim (Bool-cases (is_ready (suc k))) [
      | inl ready ↦
          rw (serve, at, ready) (again _ (serve_client-IsCounted i k (size (suc k)) s at v))
      | inr idle ↦ rw (serve, at, idle) (again s v)
    ]

accept_client-IsServer :
    (in_wd : ℕ → Bool) (new : ℤ) (s : Server)
    → IsCounted s
    → Yields IsServer (accept_client in_wd new s)
unfolding accept_client
accept_client-IsServer in_wd (negsuc n) s v = yields (record { size = v.size; free = v.free })
accept_client-IsServer in_wd (pos cs) s v =
    elim (Bool-cases (leb max_clients (s.connections + 1))) [
      | inl full ↦ rw full (yields (record { size = v.size; free = v.free }))
      | inr room ↦
          let below : s.connections + 1 < max_clients = ground arith in
          let (old, at) = get_elem?-in s.fds s.connections (omega (arith, v.size)) in
          rw (room, at)
            (yields (record {
              size = length-set s.fds s.connections cs ∙ v.size;
              free =
                  ground (arith, count_clients-set s.fds s.connections old cs at, v.counted, below);
            }))
    ]

turn-IsServer :
    (is_ready in_wd : ℕ → Bool) (size : ℕ → ℤ) (new : Option ℤ) (s : Server)
    → IsServer s
    → Yields IsServer (turn is_ready in_wd size new s)
unfolding turn
turn-IsServer is_ready in_wd size new s v =
    let counted = record s { connections = count_clients s.fds } in
    let w : IsCounted counted = record { size = v.size; free = v.free; counted = refl } in
    let (served, e, r) =
      Yields-some (serve-IsCounted is_ready size max_clients 0 counted (omega arith) w) in
    rw (turn, e) (accepted new served r)
  where
    accepted :
        (new : Option ℤ) (served : Server)
        → IsCounted served
        → Yields IsServer
            (elim new [ none ↦ some served | some cs ↦ accept_client in_wd cs served ])
    accepted none served r = yields (record { size = r.size; free = r.free })
    accepted (some cs) served r = accept_client-IsServer in_wd cs served r

passes-IsServer : (ps : List Pass) (s : Server) → IsServer s → Yields IsServer (passes ps s)
unfolding passes pass
passes-IsServer [] s v = yields v
passes-IsServer (quiet ∷ ps) s v =
    let counted = record s { connections = count_clients s.fds } in
    passes-IsServer ps counted (record { size = v.size; free = v.free })
passes-IsServer (reported is_ready in_wd size new ∷ ps) s v =
    let (s', e, w) = Yields-some (turn-IsServer is_ready in_wd size new s v) in
    rw (passes, pass, e) (passes-IsServer ps s' w)

-- From the start of the program, over any number of passes through its loop, whatever is ready, received and
-- accepted in each, the server stays inside `fds`, which keeps its ten places, and one at least of them is free
-- after every pass.
pub passes-initial-IsServer : (ps : List Pass) → Yields IsServer (passes ps initial)
unfolding count_clients
passes-initial-IsServer ps = passes-IsServer ps initial (record { size = refl; free = omega arith })

in_range : (fds : List ℕ) (i fd : ℕ) → get_elem? fds i ≡ some fd → i < length fds
in_range [] i fd h = ground (arith, h)
in_range (x ∷ fds) zero fd h = omega arith
in_range (x ∷ fds) (suc i) fd h = omega (arith, in_range fds i fd h)

-- A new client goes to the place whose number is the count of clients. When a client stands there, since
-- one before it has left, its descriptor is lost without being closed: as many clients as before are in
-- the table, and one more is counted.
pub accept_client-overwrites :
    (in_wd : ℕ → Bool) (k cs : ℕ) (s : Server)
    → s.connections + 1 < max_clients
    → get_elem? s.fds s.connections ≡ some (suc k)
    → cs ≢ 0
    → Yields
        (λ s'.
          (get_elem? s'.fds s.connections ≡ some cs)
          × (s'.closed ≡ s.closed)
          × (count_clients s'.fds ≡ count_clients s.fds)
          × (s'.connections ≡ s.connections + 1))
        (accept_client in_wd (pos cs) s)
unfolding accept_client
accept_client-overwrites in_wd k cs s room at ne =
    let more : leb max_clients (s.connections + 1) ≡ false = ground (arith, room) in
    let same = count_clients-set s.fds s.connections (suc k) cs at in
    rw (more, at)
      (yields (
        get_elem?-set_self s.fds s.connections cs (in_range s.fds s.connections (suc k) at),
        refl,
        ground (arith, same),
        refl,
      ))
