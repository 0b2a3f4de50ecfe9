-- ===== src/ThreadSem/Stuck.antt =====
-- thread/thread_sem.c: a consumer that waits for good, and that nothing else can stop the threads.
use learn_c_linux.Prelude.{
  ℕ, zero, suc, ◌+◌, ◌≡◌, ◌⊎◌, inl, inr, refl, ◌≤◌, false, none, some, arith,
}
use learn_c_linux.ThreadSem.{
  Pc, test, testing, working, ended, Threads, producter_handle, sem_wait, conmuser_handle, Step,
  produce, consume, stop, initial, Reach, start, later,
}

-- The consumer waits at 0, and the producer has ended.
pub record IsStuck (t : Threads) : Type 0 where
  pub empty : t.sem ≡ 0
  pub producter_ended : t.producter ≡ ended
  pub conmuser_waits : t.conmuser ≡ working

no_step : (u : Threads) → none ≡ some u → IsStuck u
no_step u e = ground (arith, e)

Step-IsStuck : {t u : Threads} → IsStuck t → Step t u → IsStuck u
unfolding producter_handle conmuser_handle sem_wait
Step-IsStuck {t} {u} v (produce e) = no_step u (rw v.producter_ended at e)
Step-IsStuck {t} {u} v (consume e) = no_step u (rw (v.conmuser_waits, v.empty) at e)
Step-IsStuck v stop = record {
  empty = v.empty;
  producter_ended = v.producter_ended;
  conmuser_waits = v.conmuser_waits;
}

-- A consumer that waits at 0 when the producer has ended waits for good: no step changes it, and `main`
-- never returns from its join.
pub Reach-IsStuck : (t u : Threads) → IsStuck t → Reach t u → IsStuck u
Reach-IsStuck t u v start = v
Reach-IsStuck t u v (later {u = w} r s) = Step-IsStuck (Reach-IsStuck t w v r) s

drain : (n k : ℕ) → Reach (initial n) (initial k) → (t : Threads) × Reach (initial n) t × IsStuck t
unfolding producter_handle conmuser_handle sem_wait
drain n zero r = (
  _,
  later (later (later r (consume refl)) stop) (produce refl),
  record { empty = refl; producter_ended = refl; conmuser_waits = refl },
)
drain n (suc k) r = drain n k (later (later r (consume refl)) (consume refl))

-- One of the two threads has a step of its own.
abbrev pub CanMove : Threads → Type 0
CanMove t =
    ((u : Threads) × (producter_handle t t.producter ≡ some u))
    ⊎ ((u : Threads) × (conmuser_handle t t.conmuser ≡ some u))

abbrev pub HaveEnded : Threads → Type 0
HaveEnded t = (t.producter ≡ ended) × (t.conmuser ≡ ended)

-- When the producer has ended, all is up to the consumer.
conmuser_moves :
    (t : Threads) (pc : Pc)
    → t.producter ≡ ended
    → t.conmuser ≡ pc
    → ((u : Threads) × (conmuser_handle t t.conmuser ≡ some u)) ⊎ (HaveEnded t ⊎ IsStuck t)
unfolding conmuser_handle sem_wait
conmuser_moves t testing e h = inl (record t { conmuser = test t.running }, rw h refl)
conmuser_moves t ended e h = inr (inl (e, h))
conmuser_moves t working e h = waits t.sem refl
  where
    waits :
        (k : ℕ)
        → t.sem ≡ k
        → ((u : Threads) × (conmuser_handle t t.conmuser ≡ some u)) ⊎ (HaveEnded t ⊎ IsStuck t)
    waits zero z = inr (inr (record { empty = z; producter_ended = e; conmuser_waits = h }))
    waits (suc k) z = inl (record t { sem = k; conmuser = testing }, rw (h, z) refl)

-- In any state one of them can move, unless both have ended or the consumer waits for good.
moves_or_ends : (t : Threads) → CanMove t ⊎ (HaveEnded t ⊎ IsStuck t)
unfolding producter_handle
moves_or_ends t = at_pc t.producter refl
  where
    at_pc : (pc : Pc) → t.producter ≡ pc → CanMove t ⊎ (HaveEnded t ⊎ IsStuck t)
    at_pc testing e = inl (inl (record t { producter = test t.running }, rw e refl))
    at_pc working e = inl (inl (record t { sem = t.sem + 1; producter = testing }, rw e refl))
    at_pc ended e = elim (conmuser_moves t t.conmuser e refl) [
      | inl m ↦ inl (inr m)
      | inr r ↦ inr r
    ]

-- Steps of the two threads, with their number.
pub data Turns (t : Threads) : ℕ → Threads → Type 0 where
  stay : Turns t zero t
  produced :
      {k : ℕ} {u v : Threads}
      → Turns t k u
      → producter_handle u u.producter ≡ some v
      → Turns t (suc k) v
  consumed :
      {k : ℕ} {u v : Threads}
      → Turns t k u
      → conmuser_handle u u.conmuser ≡ some v
      → Turns t (suc k) v

-- The steps that a thread has left once `running` is 0, and the posts among them.
abbrev rank : Pc → ℕ
rank testing = 1
rank working = 2
rank ended = 0

abbrev pending : Pc → ℕ
pending testing = 0
pending working = 1
pending ended = 0

-- What `k` steps do once `running` is 0.
record Slower (t : Threads) (k : ℕ) (u : Threads) : Type 0 where
  stopped : u.running ≡ false
  steps : k + (rank u.producter + rank u.conmuser) ≡ rank t.producter + rank t.conmuser
  posts : u.sem + pending u.producter ≤ t.sem + pending t.producter

producter_handle-Slower :
    (u v : Threads) (pc : Pc)
    → u.running ≡ false
    → u.producter ≡ pc
    → producter_handle u pc ≡ some v
    → Slower u 1 v
unfolding producter_handle
producter_handle-Slower u v testing stopped at e = ground arith
producter_handle-Slower u v working stopped at e = ground arith
producter_handle-Slower u v ended stopped at e = ground arith

sem_wait-Slower :
    (u v : Threads) (n : ℕ)
    → u.running ≡ false
    → u.conmuser ≡ working
    → u.sem ≡ n
    → sem_wait u n ≡ some v
    → Slower u 1 v
unfolding sem_wait
sem_wait-Slower u v zero stopped at held e = ground arith
sem_wait-Slower u v (suc n) stopped at held e = ground arith

conmuser_handle-Slower :
    (u v : Threads) (pc : Pc)
    → u.running ≡ false
    → u.conmuser ≡ pc
    → conmuser_handle u pc ≡ some v
    → Slower u 1 v
unfolding conmuser_handle
conmuser_handle-Slower u v testing stopped at e = ground arith
conmuser_handle-Slower u v working stopped at e = sem_wait-Slower u v u.sem stopped at refl e
conmuser_handle-Slower u v ended stopped at e = ground arith

Slower-suc : (t u v : Threads) (k : ℕ) → Slower t k u → Slower u 1 v → Slower t (suc k) v
Slower-suc t u v k a b = record {
  stopped = b.stopped;
  steps = omega (arith, a.steps, b.steps);
  posts = omega (arith, a.posts, b.posts);
}

Turns-Slower : (t : Threads) {k : ℕ} {u : Threads} → t.running ≡ false → Turns t k u → Slower t k u
Turns-Slower t stopped stay = record { stopped = stopped; steps = omega arith; posts = omega arith }
Turns-Slower t stopped (produced {k} {u} {v} r e) =
    let a = Turns-Slower t stopped r in
    Slower-suc t u v k a (producter_handle-Slower u v u.producter a.stopped refl e)
Turns-Slower t stopped (consumed {k} {u} {v} r e) =
    let a = Turns-Slower t stopped r in
    Slower-suc t u v k a (conmuser_handle-Slower u v u.conmuser a.stopped refl e)

rank-le : (pc : Pc) → rank pc ≤ 2
rank-le testing = omega arith
rank-le working = omega arith
rank-le ended = omega arith

pending-le : (pc : Pc) → pending pc ≤ 1
pending-le testing = omega arith
pending-le working = omega arith
pending-le ended = omega arith

-- Once `main` has cleared `running`, the threads take at most four more steps, and what the semaphore counts
-- grows by one at most; and when neither can move any more, both have ended, or the producer has ended and
-- the consumer waits on the semaphore at 0. Whatever the semaphore starts with, the program can come to the
-- latter, and from there it comes to no other state, so that `main` never returns from its join.
pub stop-ends :
    (n k : ℕ) (t u : Threads)
    → t.running ≡ false
    → Turns t k u
    → (k ≤ 4)
      × (u.sem ≤ t.sem + 1)
      × (CanMove u ⊎ (HaveEnded u ⊎ IsStuck u))
      × ((s : Threads) × Reach (initial n) s × ((v : Threads) → Reach s v → IsStuck v))
stop-ends n k t u stopped r =
    let slower = Turns-Slower t stopped r in
    let (s, reached, stuck) = drain n n start in
    (
      omega (arith, slower.steps, rank-le t.producter, rank-le t.conmuser),
      omega (arith, slower.posts, pending-le t.producter),
      moves_or_ends u,
      (s, reached, λ v. Reach-IsStuck s v stuck),
    )
