-- ===== src/Sys/Depth.antt =====
-- Programs that return after a bounded number of calls.
use learn_c_linux.Prelude.{ℕ, zero, suc, ◌≤◌, ◌≡◌, refl, some, List, [], ◌∷◌, length, arith}
use learn_c_linux.Prelude.Int.{ℤ, pos, negsuc}
use learn_c_linux.Sys.{Answer, Prog, done, exit, cut, call, on_sign, returned_by}

module _ {C : Type 0} where
  -- At most `n` calls, and then a `return`.
  abbrev pub Returns : ℕ → Prog C → Type 0
  Returns n (done r) = Unit
  Returns n (exit r) = ⊥
  Returns n cut = ⊥
  Returns zero (call c k) = ⊥
  Returns (suc n) (call c k) = (a : Answer) → Returns n (k a)

  pub Returns-on_sign :
      (n : ℕ) (z : ℤ) (bad : Prog C) (good : ℕ → Prog C)
      → Returns n bad
      → ((k : ℕ) → Returns n (good k))
      → Returns n (on_sign z bad good)
  Returns-on_sign n (pos k) bad good h w = w k
  Returns-on_sign n (negsuc k) bad good h w = h

  pub Returns-returned_by :
      (n : ℕ) (m : Prog C) (tape : List Answer)
      → Returns n m
      → n ≤ length tape
      → (r : ℤ) × (returned_by m tape ≡ some r)
  Returns-returned_by n (done r) tape h enough = (r, refl)
  Returns-returned_by n (exit r) tape h enough = absurd h
  Returns-returned_by n cut tape h enough = absurd h
  Returns-returned_by zero (call c k) tape h enough = absurd h
  Returns-returned_by (suc n) (call c k) [] h enough = absurd (omega (arith, enough))
  Returns-returned_by (suc n) (call c k) (a ∷ tape) h enough =
      Returns-returned_by n (k a) tape (h a) (omega (arith, enough))
