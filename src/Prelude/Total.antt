-- ===== src/Prelude/Total.antt =====
-- Sums of a weight over a list, and how they change with one element.
use Prim.Native.Nat.{ℕ, zero, suc, ◌+◌, ◌*◌}
use mathlib.Core.Path.{◌≡◌}
use mathlib.Core.Option.{some}
use mathlib.Core.List.{List, [], ◌∷◌, ◌++◌}
use native.Mathlib.Omega.{arith}
use learn_c_linux.Prelude.Lists.{get_elem?, set, replicate}

module _ {A : Type 0} (w : A → ℕ) where
  abbrev pub total : List A → ℕ
  total [] = 0
  total (x ∷ xs) = w x + total xs

  pub total-set :
      (xs : List A) (i : ℕ) (old new : A)
      → get_elem? xs i ≡ some old
      → total (set xs i new) + w old ≡ total xs + w new
  total-set [] i old new h = ground arith
  total-set (x ∷ xs) zero old new h = ground arith
  total-set (x ∷ xs) (suc i) old new h = omega (arith, total-set xs i old new h)

  pub total-append : (xs ys : List A) → total (xs ++ ys) ≡ total xs + total ys
  total-append [] ys = omega arith
  total-append (x ∷ xs) ys = omega (arith, total-append xs ys)

  pub total-replicate : (n : ℕ) (a : A) → total (replicate n a) ≡ n * w a
  total-replicate zero a = omega arith
  total-replicate (suc n) a = grind (arith, total-replicate n a)
