-- ===== src/Chat/Table.antt =====
-- practise/chat/server.c: `push_fd` and the loop that reads what it writes.
use learn_c_linux.Prelude.{
  ℕ, suc, ◌+◌, ◌-◌, ◌<◌, ◌≤◌, ◌≡◌, refl, some, List, [], ◌∷◌, ◌++◌, length, set, arith, Yields,
  yields, ◌⊎◌, inl, inr, ◌==◌, ltb, true, false, ℕ_discrete,
}
use learn_c_linux.Prelude.Int.{pos, negsuc}
use learn_c_linux.Chat.{Clients, push_fd, receivers}

-- The array begins with the descriptors `cs`, none of them 0, and a 0.
pub data Terminated : List ℕ → List ℕ → Type 0 where
  done : {rest : List ℕ} → Terminated [] (0 ∷ rest)
  more : {k : ℕ} {cs rest : List ℕ} → Terminated cs rest → Terminated (suc k ∷ cs) (suc k ∷ rest)

-- A message goes to the listed clients, in order, and the loop stops inside the array.
pub receivers-Terminated : (cs fds : List ℕ) → Terminated cs fds → receivers fds ≡ some cs
unfolding receivers
receivers-Terminated _ _ done = refl
receivers-Terminated _ _ (more {cs} {rest} t) = rw (receivers-Terminated cs rest t) refl

Terminated-set :
    (k : ℕ) (cs fds : List ℕ)
    → Terminated cs fds
    → suc (length cs) < length fds
    → Terminated (cs ++ (suc k ∷ [])) (set (set fds (length cs) (suc k)) (suc (length cs)) 0)
Terminated-set k _ _ (done {rest = []}) room = absurd (omega arith)
Terminated-set k _ _ (done {rest = x ∷ rest}) room = more done
Terminated-set k _ _ (more {cs} {rest} t) room = more (Terminated-set k cs rest t (omega arith))

-- `push_fd` puts a new client behind the others, with the 0 after it, and returns 0; when `length - 1`
-- clients are listed it returns -1 and changes nothing.
pub push_fd-Terminated :
    (k len : ℕ) (cs : List ℕ) (s : Clients)
    → Terminated cs s.client_fds
    → s.count ≡ length cs
    → s.count < len
    → len ≤ length s.client_fds
    → ((s.count ≡ len - 1) × (push_fd (suc k) len s ≡ some (negsuc 0, s)))
      ⊎ Yields
          (λ r.
            (r.0 ≡ pos 0)
            × Terminated (cs ++ (suc k ∷ [])) r.1.client_fds
            × (r.1.count ≡ length cs + 1)
            × (r.1.count < len))
          (push_fd (suc k) len s)
unfolding push_fd
push_fd-Terminated k len cs s t counted below fits = elim (ℕ_discrete s.count (len - 1)) [
  | yes full ↦ inl (full, ground arith)
  | no room ↦
      let open_place : (s.count == len - 1) ≡ false = ground arith in
      let inside : ltb (s.count + 1) (length s.client_fds) ≡ true = ground arith in
      let next : length cs + 1 ≡ suc (length cs) = omega arith in
      let short : suc (length cs) < length s.client_fds = omega arith in
      inr (
        rw (open_place, inside, counted, next)
          (yields (refl, Terminated-set k cs s.client_fds t short, refl, omega arith)))
]
