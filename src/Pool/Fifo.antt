-- ===== src/Pool/Fifo.antt =====
-- The ring of practise/thread_pool.c as a first-in first-out queue of tasks.
use native.Mathlib.Nat.{add-zero, mod-add-mod, mod-eq_of_lt, mod-eq-sub-mod}
use learn_c_linux.Prelude.{
  ℕ, zero, suc, ◌+◌, ◌-◌, ◌%◌, ◌≤◌, ◌<◌, ◌≡◌, ◌≢◌, refl, ap, subst, ◌∙◌, List, [], ◌∷◌, ◌++◌, arith,
  length, set, get_or, get_elem?-get_or, get_or-set_self, get_or-set_ne, dec_lt, Yields, yields,
}
use learn_c_linux.Prelude.Int.{ℤ, pos}
use learn_c_linux.Pool.{Task, task, Pool, taken, take_task, returned, put_task}
use learn_c_linux.Pool.Inv.{IsValid}

-- `n` tasks of a ring of size `m`, from index `f` on.
abbrev pub ring : List Task → ℕ → ℕ → ℕ → List Task
ring q m f zero = []
ring q m f (suc n) = get_or q f (task 0 0) ∷ ring q m ((f + 1) % m) n

-- The tasks that wait, the oldest first.
abbrev pub contents : Pool → List Task
contents p = ring p.task_queue p.queue_max_size p.queue_front p.queue_size

pub length-ring : (q : List Task) (m f n : ℕ) → length (ring q m f n) ≡ n
length-ring q m f zero = refl
length-ring q m f (suc n) = ap suc (length-ring q m ((f + 1) % m) n)

-- Fewer than `m` steps round the ring lead to another index.
turn-ne : (f k m : ℕ) → f < m → 0 < k → k < m → (f + k) % m ≢ f
turn-ne f k m hf pos_k hk = elim (dec_lt (f + k) m) [
  | yes below ↦ omega (arith, mod-eq_of_lt below)
  | no above ↦
      let once : (f + k) % m ≡ (f + k - m) % m = mod-eq-sub-mod (omega arith) in
      let small : (f + k - m) % m ≡ f + k - m = mod-eq_of_lt (omega arith) in omega arith
]

pub ring-set :
    (q : List Task) (m : ℕ) (t : Task) (n f r : ℕ)
    → m ≤ length q
    → f < m
    → n < m
    → r ≡ (f + n) % m
    → ring (set q r t) m f (suc n) ≡ ring q m f n ++ (t ∷ [])
ring-set q m t zero f r room hf hn e =
    let same : r ≡ f = e ∙ rw add-zero (mod-eq_of_lt hf) in
    rw (same, get_or-set_self q f t (task 0 0) (omega arith))
ring-set q m t (suc n) f r room hf hn e =
    let other : r ≢ f = rw e (turn-ne f (suc n) m hf (omega arith) hn) in
    let shift : f + 1 + n ≡ f + suc n = omega arith in
    let further : r ≡ ((f + 1) % m + n) % m = rw (mod-add-mod, shift) e in
    let rest = ring-set q m t n ((f + 1) % m) r room (omega arith) (omega arith) further in
    rw (get_or-set_ne q r f t (task 0 0) other, rest)

ring-suc :
    (q : List Task) (m f n : ℕ)
    → n ≢ 0
    → ring q m f n ≡ get_or q f (task 0 0) ∷ ring q m ((f + 1) % m) (n - 1)
ring-suc q m f zero h = absurd (h refl)
ring-suc q m f (suc n) h = ap (λ k. ring q m f (suc k)) (omega arith)

-- A worker that finds a task gets the oldest one, and leaves the others in order.
pub take_task-contents :
    (p : Pool)
    → IsValid p
    → p.queue_size ≢ 0
    → Yields
        (λ out. (t : Task) × (contents p ≡ t ∷ contents out.0) × (out.1 ≡ taken t))
        (take_task p)
unfolding take_task
take_task-contents p v ne =
    let q = p.task_queue in
    rw (get_elem?-get_or q p.queue_front (task 0 0) (omega arith), take_task)
      (yields (_, ring-suc q p.queue_max_size p.queue_front p.queue_size ne, refl))

-- A task that is added waits behind all others.
pub put_task-contents :
    (p p' : Pool) (f a : ℕ) (r : ℤ)
    → IsValid p
    → p.queue_size ≢ p.queue_max_size
    → put_task p f a ≡ returned r p'
    → (r ≡ pos 0) × (contents p' ≡ contents p ++ (task f a ∷ []))
unfolding put_task
put_task-contents p p' f a r v ne h =
    let open_end =
      λ (k : ℕ). ring (set p.task_queue p.queue_rear (task f a)) p.queue_max_size p.queue_front k in
    let one_more : suc p.queue_size ≡ p.queue_size + 1 = omega arith in
    let more : open_end (p.queue_size + 1) ≡ contents p ++ (task f a ∷ []) =
      subst (λ k. open_end k ≡ contents p ++ (task f a ∷ [])) one_more
        (ring-set p.task_queue p.queue_max_size (task f a) p.queue_size p.queue_front p.queue_rear
          v.room v.front_in (omega arith) v.rear_at) in
    ground (arith, more)
