-- ===== src/Sys/Rule.antt =====
-- How to prove that a program keeps to a protocol, one call at a time.
use learn_c_linux.Prelude.{
  ℕ, zero, suc, ◌≡◌, ◌≢◌, refl, subst, Bool, true, false, ◌&&◌, if◌then◌else◌, some, List, [], ◌∷◌,
  arith,
}
use mathlib.Core.Option.{some-injective, none-ne-some}
use learn_c_linux.Prelude.Int.{ℤ, pos, negsuc}
use learn_c_linux.Sys.{
  Answer, Prog, done, exit, cut, call, ◌>>=◌, on_sign, on_zero, on_positive, on_minus_one, run,
  returned_by, Protocol, obeys, honest, final,
}

&&-true : (a b : Bool) → a && b ≡ true → (a ≡ true) × (b ≡ true)
&&-true a b h = ground arith

pub run-nil : {C : Type 0} (m : Prog C) → run m [] ≡ []
run-nil (done r) = refl
run-nil (exit r) = refl
run-nil cut = refl
run-nil (call c k) = refl

-- What holds on both branches of a test.
pub on_sign-either :
    {C : Type 0} (P : Prog C → Type 0) (z : ℤ) (bad : Prog C) (good : ℕ → Prog C)
    → P bad
    → ((n : ℕ) → P (good n))
    → P (on_sign z bad good)
on_sign-either P (pos n) bad good h k = k n
on_sign-either P (negsuc n) bad good h k = h

pub if-either :
    {C : Type 0} (P : Prog C → Type 0) (b : Bool) (m n : Prog C)
    → P m
    → P n
    → P (if b then m else n)
if-either P true m n h k = h
if-either P false m n h k = k

pos_ne : (n : ℕ) → ¬ (pos (suc n) ≡ pos 0)
pos_ne n e = ground (arith, e)

negsuc_ne : (n : ℕ) → ¬ (negsuc n ≡ pos 0)
negsuc_ne n e = ground (arith, e)

module _ {C S : Type 0} (p : Protocol C S) where
  -- From the state `s` the program makes allowed calls only, as long as the answers are honest, and where it
  -- returns the state and the value satisfy `Q`.
  abbrev pub Safe : S → Prog C → (S → ℤ → Type 0) → Type 0
  Safe s (done r) Q = Q s r
  Safe s (exit r) Q = Unit
  Safe s cut Q = Unit
  Safe s (call c k) Q =
      (p.allows s c ≡ true)
      × ((a : Answer) → p.is_honest s c a ≡ true → Safe (p.after s c a) (k a) Q)

  pub Safe-mono :
      (s : S) (m : Prog C) {P Q : S → ℤ → Type 0}
      → Safe s m P
      → ((s' : S) (r : ℤ) → P s' r → Q s' r)
      → Safe s m Q
  Safe-mono s (done r) h w = w s r h
  Safe-mono s (exit r) h w = tt
  Safe-mono s cut h w = tt
  Safe-mono s (call c k) h w = (h.0, λ a fair. Safe-mono (p.after s c a) (k a) (h.1 a fair) w)

  pub Safe-bind :
      (s : S) (m : Prog C) (k : ℤ → Prog C) (Q : S → ℤ → Type 0)
      → Safe s m (λ s' r. Safe s' (k r) Q)
      → Safe s (m >>= k) Q
  Safe-bind s (done r) k Q h = h
  Safe-bind s (exit r) k Q h = tt
  Safe-bind s cut k Q h = tt
  Safe-bind s (call c f) k Q h = (h.0, λ a fair. Safe-bind (p.after s c a) (f a) k Q (h.1 a fair))

  pub Safe-if :
      (s : S) (b : Bool) (m n : Prog C) (Q : S → ℤ → Type 0)
      → (b ≡ true → Safe s m Q)
      → (b ≡ false → Safe s n Q)
      → Safe s (if b then m else n) Q
  Safe-if s true m n Q h k = h refl
  Safe-if s false m n Q h k = k refl

  pub Safe-on_sign :
      (s : S) (z : ℤ) (bad : Prog C) (good : ℕ → Prog C) (Q : S → ℤ → Type 0)
      → ((k : ℕ) → z ≡ negsuc k → Safe s bad Q)
      → ((n : ℕ) → z ≡ pos n → Safe s (good n) Q)
      → Safe s (on_sign z bad good) Q
  Safe-on_sign s (pos n) bad good Q h k = k n refl
  Safe-on_sign s (negsuc n) bad good Q h k = h n refl

  pub Safe-on_zero :
      (s : S) (z : ℤ) (here other : Prog C) (Q : S → ℤ → Type 0)
      → (z ≡ pos 0 → Safe s here Q)
      → (z ≢ pos 0 → Safe s other Q)
      → Safe s (on_zero z here other) Q
  Safe-on_zero s (pos zero) here other Q h k = h refl
  Safe-on_zero s (pos (suc n)) here other Q h k = k (λ e. pos_ne n e)
  Safe-on_zero s (negsuc n) here other Q h k = k (λ e. negsuc_ne n e)

  pub Safe-on_positive :
      (s : S) (z : ℤ) (more : ℕ → Prog C) (other : Prog C) (Q : S → ℤ → Type 0)
      → ((n : ℕ) → z ≡ pos (suc n) → Safe s (more (suc n)) Q)
      → Safe s other Q
      → Safe s (on_positive z more other) Q
  Safe-on_positive s (pos zero) more other Q h k = k
  Safe-on_positive s (pos (suc n)) more other Q h k = h n refl
  Safe-on_positive s (negsuc n) more other Q h k = k

  pub Safe-on_minus_one :
      (s : S) (z : ℤ) (failed other : Prog C) (Q : S → ℤ → Type 0)
      → (z ≡ negsuc 0 → Safe s failed Q)
      → (z ≢ negsuc 0 → Safe s other Q)
      → Safe s (on_minus_one z failed other) Q
  Safe-on_minus_one s (pos n) failed other Q h k = k (λ e. ground (arith, e))
  Safe-on_minus_one s (negsuc zero) failed other Q h k = h refl
  Safe-on_minus_one s (negsuc (suc n)) failed other Q h k = k (λ e. ground (arith, e))

  pub Safe-obeys :
      (s : S) (m : Prog C) (Q : S → ℤ → Type 0) (tape : List Answer)
      → Safe s m Q
      → honest p s (run m tape) ≡ true
      → obeys p s (run m tape) ≡ true
  Safe-obeys s (done r) Q tape h fair = refl
  Safe-obeys s (exit r) Q tape h fair = refl
  Safe-obeys s cut Q tape h fair = refl
  Safe-obeys s (call c k) Q [] h fair = refl
  Safe-obeys s (call c k) Q (a ∷ tape) h fair =
      let (now, rest) = &&-true _ _ fair in
      let later = Safe-obeys (p.after s c a) (k a) Q tape (h.1 a now) rest in
      ground (arith, h.0, later)

  -- What `Q` says of the end.
  pub Safe-final :
      (s : S) (m : Prog C) (Q : S → ℤ → Type 0) (tape : List Answer) (r : ℤ)
      → Safe s m Q
      → honest p s (run m tape) ≡ true
      → returned_by m tape ≡ some r
      → Q (final p s (run m tape)) r
  Safe-final s (done z) Q tape r h fair e = subst (Q s) (some-injective z r e) h
  Safe-final s (exit z) Q tape r h fair e = absurd (none-ne-some r e)
  Safe-final s cut Q tape r h fair e = absurd (none-ne-some r e)
  Safe-final s (call c k) Q [] r h fair e = absurd (none-ne-some r e)
  Safe-final s (call c k) Q (a ∷ tape) r h fair e =
      let (now, rest) = &&-true _ _ fair in
      Safe-final (p.after s c a) (k a) Q tape r (h.1 a now) rest e
