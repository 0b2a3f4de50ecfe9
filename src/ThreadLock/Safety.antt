-- ===== src/ThreadLock/Safety.antt =====
-- thread/thread_lock.c: no update is lost, and the threads are never stuck.
use learn_c_linux.Prelude.{
  ℕ, ◌+◌, ◌≤◌, ◌≡◌, ◌⊎◌, inl, inr, refl, ap, sym, subst, ◌∙◌, Bool, true, false, Option, none, some,
  arith, Bool-cases,
}
use learn_c_linux.Prelude.Int.{ℤ, pos, ◌+ℤ◌, ◌-ℤ◌}
use learn_c_linux.ThreadLock.{
  Side, producter, consumer, Pc, testing, locking, loading, storing, unlocking, ended, Shared,
  store, advance, Threads, Step, produce, consume, stop, Reach, start, later,
}

-- 1 between lock and unlock.
abbrev pub inside : Pc → ℕ
inside loading = 1
inside (storing _) = 1
inside unlocking = 1
inside _ = 0

-- A value that was read is still the shared one.
abbrev pub IsCurrent : ℤ → Pc → Type 0
IsCurrent item (storing v) = v ≡ item
IsCurrent item _ = Unit

abbrev pub held : Bool → ℕ
held true = 1
held false = 0

pub record Consistent (t : Threads) : Type 0 where
  pub exclusive : inside t.producter_pc + inside t.consumer_pc ≡ held t.shared.locked
  pub producter_current : IsCurrent t.shared.buffer_has_item t.producter_pc
  pub consumer_current : IsCurrent t.shared.buffer_has_item t.consumer_pc
  pub balance : t.shared.buffer_has_item +ℤ pos t.shared.consumed ≡ pos t.shared.produced

-- What one step of a thread needs and keeps, with `other` the number of the other threads that hold the
-- mutex.
record Moved (side : Side) (other : ℕ) (s : Shared) (s' : Shared) (pc' : Pc) : Type 0 where
  exclusive : inside pc' + other ≡ held s'.locked
  current : IsCurrent s'.buffer_has_item pc'
  balance : s'.buffer_has_item +ℤ pos s'.consumed ≡ pos s'.produced
  same : (other ≡ 0) ⊎ (s'.buffer_has_item ≡ s.buffer_has_item)

balance_up : (v : ℤ) (c p : ℕ) → v +ℤ pos c ≡ pos p → v +ℤ pos 1 +ℤ pos c ≡ pos (p + 1)
unfolding ◌+ℤ◌
balance_up v c p h = ground arith

balance_down : (v : ℤ) (c p : ℕ) → v +ℤ pos c ≡ pos p → v -ℤ pos 1 +ℤ pos (c + 1) ≡ pos p
unfolding ◌+ℤ◌ ◌-ℤ◌
balance_down v c p h = ground arith

held_le : (b : Bool) → held b ≤ 1
held_le true = omega arith
held_le false = omega arith

abbrev After : Side → ℕ → Shared → Option (Shared × Pc) → Type 0
After side other s none = Unit
After side other s (some (s', pc')) = Moved side other s s' pc'

advance-Moved :
    (side : Side) (other : ℕ) (s : Shared) (pc : Pc)
    → inside pc + other ≡ held s.locked
    → IsCurrent s.buffer_has_item pc
    → s.buffer_has_item +ℤ pos s.consumed ≡ pos s.produced
    → After side other s (advance side s pc)
unfolding advance store
advance-Moved side other s testing x c b = elim (Bool-cases s.running) [
  | inl e ↦ rw e (record { exclusive = x; current = tt; balance = b; same = inr refl })
  | inr e ↦ rw e (record { exclusive = x; current = tt; balance = b; same = inr refl })
]
advance-Moved side other s locking x c b = elim (Bool-cases s.locked) [
  | inl e ↦ rw e tt
  | inr e ↦
      rw e (record {
        exclusive = omega (arith, ap held e);
        current = tt;
        balance = b;
        same = inr refl;
      })
]
advance-Moved side other s loading x c b = record {
  exclusive = x;
  current = refl;
  balance = b;
  same = inr refl;
}
advance-Moved producter other s (storing v) x c b =
    let alone : other ≡ 0 = omega (arith, held_le s.locked) in
    let now : v +ℤ pos s.consumed ≡ pos s.produced = rw c b in
    record {
      exclusive = x;
      current = tt;
      balance = balance_up v s.consumed s.produced now;
      same = inl alone;
    }
advance-Moved consumer other s (storing v) x c b =
    let alone : other ≡ 0 = omega (arith, held_le s.locked) in
    let now : v +ℤ pos s.consumed ≡ pos s.produced = rw c b in
    record {
      exclusive = x;
      current = tt;
      balance = balance_down v s.consumed s.produced now;
      same = inl alone;
    }
advance-Moved side other s unlocking x c b = record {
  exclusive = omega (arith, held_le s.locked);
  current = tt;
  balance = b;
  same = inr refl;
}
advance-Moved side other s ended x c b = tt

IsCurrent-kept :
    (old new : ℤ) (pc : Pc) → IsCurrent old pc → (inside pc ≡ 0) ⊎ (new ≡ old) → IsCurrent new pc
IsCurrent-kept old new testing c k = tt
IsCurrent-kept old new locking c k = tt
IsCurrent-kept old new loading c k = tt
IsCurrent-kept old new (storing v) c (inl none_inside) = absurd (omega arith)
IsCurrent-kept old new (storing v) c (inr same) = c ∙ sym same
IsCurrent-kept old new unlocking c k = tt
IsCurrent-kept old new ended c k = tt

Moved-of :
    (side : Side) (other : ℕ) (s : Shared) (pc : Pc) (s' : Shared) (pc' : Pc)
    → advance side s pc ≡ some (s', pc')
    → After side other s (advance side s pc)
    → Moved side other s s' pc'
Moved-of side other s pc s' pc' e m = subst (After side other s) e m

Step-Consistent : {t u : Threads} → Consistent t → Step t u → Consistent u
Step-Consistent {t} v (produce e) =
    let m = Moved-of producter (inside t.consumer_pc) t.shared t.producter_pc _ _ e (
      advance-Moved producter (inside t.consumer_pc) t.shared t.producter_pc v.exclusive
        v.producter_current v.balance) in
    record {
      exclusive = m.exclusive;
      producter_current = m.current;
      consumer_current = IsCurrent-kept _ _ t.consumer_pc v.consumer_current m.same;
      balance = m.balance;
    }
Step-Consistent {t} v (consume e) =
    let swapped : inside t.consumer_pc + inside t.producter_pc ≡ held t.shared.locked =
      omega (arith, v.exclusive) in
    let m = Moved-of consumer (inside t.producter_pc) t.shared t.consumer_pc _ _ e (
      advance-Moved consumer (inside t.producter_pc) t.shared t.consumer_pc swapped
        v.consumer_current v.balance) in
    record {
      exclusive = omega (arith, m.exclusive);
      producter_current = IsCurrent-kept _ _ t.producter_pc v.producter_current m.same;
      consumer_current = m.current;
      balance = m.balance;
    }
Step-Consistent v stop = record {
  exclusive = v.exclusive;
  producter_current = v.producter_current;
  consumer_current = v.consumer_current;
  balance = v.balance;
}

-- In every state that the two threads and `main` can reach, at most one thread is between lock and unlock,
-- exactly when the mutex is locked; what a thread has read is still the shared count; and the count
-- plus the writes of the consumer is the number of writes of the producer, so that no update is lost.
pub Reach-Consistent : {t : Threads} → Reach t → Consistent t
unfolding ◌+ℤ◌
Reach-Consistent start = record {
  exclusive = refl;
  producter_current = tt;
  consumer_current = tt;
  balance = refl;
}
Reach-Consistent (later r s) = Step-Consistent (Reach-Consistent r) s

abbrev pub CanMove : Side → Shared → Pc → Type 0
CanMove side s pc = (r : Shared × Pc) × (advance side s pc ≡ some r)

-- A thread moves, or it has ended, or it waits for the mutex.
advance-cases :
    (side : Side) (s : Shared) (pc : Pc)
    → CanMove side s pc ⊎ ((pc ≡ ended) ⊎ ((pc ≡ locking) × (s.locked ≡ true)))
unfolding advance
advance-cases side s testing = elim (Bool-cases s.running) [
  | inl e ↦ inl ((s, locking), rw e refl)
  | inr e ↦ inl ((s, ended), rw e refl)
]
advance-cases side s locking = elim (Bool-cases s.locked) [
  | inl e ↦ inr (inr (refl, e))
  | inr e ↦ inl ((record s { locked = true }, loading), rw e refl)
]
advance-cases side s loading = inl (_, refl)
advance-cases side s (storing v) = inl (_, refl)
advance-cases side s unlocking = inl (_, refl)
advance-cases side s ended = inr (inl refl)

abbrev Waits : Shared → Pc → Type 0
Waits s pc = (pc ≡ ended) ⊎ ((pc ≡ locking) × (s.locked ≡ true))

Waits-inside : (s : Shared) (pc : Pc) → Waits s pc → inside pc ≡ 0
Waits-inside s pc (inl e) = rw e refl
Waits-inside s pc (inr (e, _)) = rw e refl

ended-Waits : (s : Shared) (pc : Pc) → held s.locked ≡ 0 → Waits s pc → pc ≡ ended
ended-Waits s pc free (inl e) = e
ended-Waits s pc free (inr (_, l)) = absurd (omega (arith, free, ap held l))

-- In every state that can be reached one of the threads can move, or both have ended: they never wait for
-- each other for good.
pub Reach-CanMove :
    {t : Threads}
    → Reach t
    → CanMove producter t.shared t.producter_pc
      ⊎ (CanMove consumer t.shared t.consumer_pc
          ⊎ ((t.producter_pc ≡ ended) × (t.consumer_pc ≡ ended)))
Reach-CanMove {t} r =
    let v = Reach-Consistent r in
    elim (advance-cases producter t.shared t.producter_pc) [
      | inl m ↦ inl m
      | inr p ↦ elim (advance-cases consumer t.shared t.consumer_pc) [
        | inl m ↦ inr (inl m)
        | inr c ↦
            let no_p = Waits-inside t.shared t.producter_pc p in
            let no_c = Waits-inside t.shared t.consumer_pc c in
            let free : held t.shared.locked ≡ 0 = omega (arith, v.exclusive, no_p, no_c) in
            inr (
              inr (
                ended-Waits t.shared t.producter_pc free p,
                ended-Waits t.shared t.consumer_pc free c,
              ))
      ]
    ]
