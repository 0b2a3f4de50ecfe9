-- ===== src/Prelude/Bits.antt =====
-- `&`, `|` and `^` one binary digit at a time, and over a word cut in two.
use Prim.Native.Nat.{
  min, max, differ, digits, bitwise, bit_and, bit_or, bit_xor, bit_and-bitwise, bit_or-bitwise,
  bit_xor-bitwise,
}
use native.Mathlib.Nat.{le_refl, pow-suc, div-div-eq-div-mul}
use learn_c_linux.Prelude.{
  ℕ, zero, suc, ◌+◌, ◌*◌, ◌/◌, ◌%◌, ◌^◌, ◌≤◌, ◌<◌, ◌≡◌, refl, ◌∙◌, ap, arith,
}

-- The native operations are a recursion on digits with fuel: any fuel from `a` on gives the same.
module _ (rest : ℕ → ℕ) (op : ℕ → ℕ → ℕ) where
  enough : (a b n m : ℕ) → a ≤ n → a ≤ m → digits rest op n a b ≡ digits rest op m a b
  enough zero b zero zero hn hm = refl
  enough zero b zero (suc m) hn hm = refl
  enough zero b (suc n) zero hn hm = refl
  enough zero b (suc n) (suc m) hn hm = refl
  enough (suc a) b zero m hn hm = absurd (omega arith)
  enough (suc a) b (suc n) zero hn hm = absurd (omega arith)
  enough (suc a) b (suc n) (suc m) hn hm =
      ap (λ d. d * 2 + op (suc a % 2) (b % 2))
        (enough (suc a / 2) (b / 2) n m (omega arith) (omega arith))

  lowest :
      (a b : ℕ)
      → bitwise rest op (suc a) b ≡ bitwise rest op (suc a / 2) (b / 2) * 2 + op (suc a % 2) (b % 2)
  lowest a b =
      ap (λ d. d * 2 + op (suc a % 2) (b % 2))
        (enough (suc a / 2) (b / 2) a (suc a / 2) (omega arith) (le_refl _))

pub bit_xor_step : (x y : ℕ) → bit_xor x y ≡ bit_xor (x / 2) (y / 2) * 2 + differ (x % 2) (y % 2)
bit_xor_step zero y = simp bit_xor-bitwise (omega arith)
bit_xor_step (suc x) y = simp bit_xor-bitwise (lowest (λ d. d) differ x y)

pub bit_and_step : (x y : ℕ) → bit_and x y ≡ bit_and (x / 2) (y / 2) * 2 + min (x % 2) (y % 2)
bit_and_step zero y = simp bit_and-bitwise (omega arith)
bit_and_step (suc x) y = simp bit_and-bitwise (lowest (λ d. 0) min x y)

pub bit_or_step : (x y : ℕ) → bit_or x y ≡ bit_or (x / 2) (y / 2) * 2 + max (x % 2) (y % 2)
bit_or_step zero y = simp bit_or-bitwise (omega arith)
bit_or_step (suc x) y = simp bit_or-bitwise (lowest (λ d. d) max x y)

-- With a lower half of zeros, or an empty operand, nothing happens. The bound `n` is on the operand.
bit_and-zero : (top x : ℕ) → x ≤ top → bit_and x 0 ≡ 0
bit_and-zero top zero below = refl
bit_and-zero zero (suc x) below = absurd (omega arith)
bit_and-zero (suc top) (suc x) below =
    let half = bit_and-zero top (suc x / 2) (omega arith) in
    omega (arith, half, bit_and_step (suc x) 0)

bit_or-zero : (n a : ℕ) → a ≤ n → bit_or a 0 ≡ a
bit_or-zero n zero h = refl
bit_or-zero zero (suc a) h = absurd (omega arith)
bit_or-zero (suc n) (suc a) h =
    omega (arith, bit_or_step (suc a) 0, bit_or-zero n (suc a / 2) (omega arith))

pub zero-bit_xor : (b : ℕ) → bit_xor 0 b ≡ b
zero-bit_xor b = bit_xor-bitwise 0 b

pub double : (x k : ℕ) → x * 2 ^ suc k ≡ 2 * (x * 2 ^ k)
double x k = omega (arith, ap (λ (t : ℕ). x * t) (pow-suc 2 k))

-- `a & 2^i` is the digit at `i`, in its place.
pub bit_and_pow : (i a : ℕ) → bit_and a (2 ^ i) ≡ a / 2 ^ i % 2 * 2 ^ i
bit_and_pow zero a = omega (arith, bit_and_step a 1, bit_and-zero (a / 2) (a / 2) (le_refl _))
bit_and_pow (suc i) a =
    let half : 2 ^ suc i / 2 ≡ 2 ^ i = omega (arith, pow-suc 2 i) in
    let even : 2 ^ suc i % 2 ≡ 0 = omega (arith, pow-suc 2 i) in
    let further : a / 2 / 2 ^ i ≡ a / 2 ^ suc i =
      div-div-eq-div-mul a 2 (2 ^ i) ∙ ap (λ t. a / t) (omega (arith, pow-suc 2 i)) in
    let digit = a / 2 ^ suc i % 2 in
    bit_and_step a (2 ^ suc i)
    ∙ rw (half, even, bit_and_pow i (a / 2), further) (omega (arith, double digit i))

-- `|` adds a digit above which there is nothing but a multiple of twice its weight.
pub bit_or_pow : (i q : ℕ) → bit_or (q * 2 ^ suc i) (2 ^ i) ≡ q * 2 ^ suc i + 2 ^ i
bit_or_pow zero q = ground (arith, bit_or_step (q * 2) 1, bit_or-zero q q (le_refl _))
bit_or_pow (suc i) q = ground (
  arith,
  bit_or_step (q * 2 ^ suc (suc i)) (2 ^ suc i),
  double q (suc i),
  pow-suc 2 i,
  bit_or_pow i q,
)

pub differ_lt : (a b : ℕ) → differ (a % 2) (b % 2) < 2
differ_lt a b = digit (a % 2) (b % 2) (omega arith) (omega arith)
  where
    digit : (x y : ℕ) → x < 2 → y < 2 → differ x y < 2
    digit zero y hx hy = ground arith
    digit (suc x) zero hx hy = ground arith
    digit (suc x) (suc y) hx hy = ground arith

-- `^` acts on the two parts of a word.
pub bit_xor_parts :
    (k p q a b : ℕ)
    → a < 2 ^ k
    → b < 2 ^ k
    → (bit_xor (p * 2 ^ k + a) (q * 2 ^ k + b) ≡ bit_xor p q * 2 ^ k + bit_xor a b)
      × (bit_xor a b < 2 ^ k)
bit_xor_parts zero p q a b ha hb =
    let a0 : a ≡ 0 = omega arith in
    let b0 : b ≡ 0 = omega arith in rw (a0, b0) (ground arith, omega arith)
bit_xor_parts (suc k) p q a b ha hb = ground (
  arith,
  bit_xor_step (p * 2 ^ suc k + a) (q * 2 ^ suc k + b),
  bit_xor_step a b,
  double p k,
  double q k,
  double (bit_xor p q) k,
  pow-suc 2 k,
  differ_lt a b,
  bit_xor_parts k p q (a / 2) (b / 2),
)
