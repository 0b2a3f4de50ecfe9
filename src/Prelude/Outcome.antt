-- ===== src/Prelude/Outcome.antt =====
-- Total correctness of a computation that may fail: it has a result, and the result satisfies `P`.
use mathlib.Core.Path.{◌≡◌, refl}
use mathlib.Core.Option.{Option, none, some}

pub data Yields {A : Type 0} (P : A → Type 0) : Option A → Type 0 where
  yields : {a : A} → P a → Yields P (some a)

module _ {A : Type 0} {P : A → Type 0} where
  pub Yields-mono :
      {Q : A → Type 0} {o : Option A} → Yields P o → ((a : A) → P a → Q a) → Yields Q o
  Yields-mono (yields p) weaken = yields (weaken _ p)

  pub Yields-some : {o : Option A} → Yields P o → (a : A) × (o ≡ some a) × P a
  Yields-some (yields p) = (_, refl, p)

  pub Yields-at : {o : Option A} {a : A} → Yields P o → o ≡ some a → P a
  Yields-at y e = of_some (rw e at y)
    where
      of_some : {a : A} → Yields P (some a) → P a
      of_some (yields p) = p

-- A chain of steps that may fail.
infixl 5 ◌>>=◌
abbrev pub ◌>>=◌ : {A B : Type 0} → Option A → (A → Option B) → Option B
o >>= f = elim o [ none ↦ none | some a ↦ f a ]
