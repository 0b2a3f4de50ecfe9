-- ===== src/Crc/Reverse.antt =====
-- The reversal of socket/socket_raw/CRC.c as arithmetic.
use Prim.Native.Nat.{differ, bit_and, bit_or, bit_xor}
use native.Mathlib.Nat.{
  pow-suc, mod-lt, div-add-mod', div-lt_iff_lt-mul, one-le-pow, div-div-eq-div-mul,
}
use learn_c_linux.Prelude.{
  ℕ, zero, suc, ◌+◌, ◌*◌, ◌/◌, ◌%◌, ◌^◌, ◌≤◌, ◌<◌, ◌≡◌, refl, sym, ap, ◌∙◌, arith, ◌==◌, ==_iff,
  ℕ_discrete, ◌≢◌, true, false,
}
use learn_c_linux.Prelude.Bits.{
  bit_and_pow, bit_or_pow, bit_xor_parts, double, bit_xor_step, differ_lt,
}
use learn_c_linux.Crc.{invert_loop}

-- The word whose digit at `k - 1 - i` is the digit of `x` at `i`, for every `i` below `k`.
unfoldable pub rev : ℕ → ℕ → ℕ
rev zero x = 0
rev (suc k) x = x % 2 * 2 ^ k + rev k (x / 2)

rev-zero : (x : ℕ) → rev 0 x ≡ 0
unfolding rev
rev-zero x = refl

-- A digit times a weight.
digit_mul : (d t : ℕ) → d < 2 → d * t ≤ t
digit_mul d t h = grind arith

pub rev-lt : (k x : ℕ) → rev k x < 2 ^ k
unfolding rev
rev-lt zero x = omega arith
rev-lt (suc k) x =
    omega (arith, rev-lt k (x / 2), digit_mul (x % 2) (2 ^ k) (omega arith), pow-suc 2 k)

half_pow : (x k : ℕ) → x / 2 / 2 ^ k ≡ x / 2 ^ suc k
half_pow x k = div-div-eq-div-mul x 2 (2 ^ k) ∙ ap (λ t. x / t) (omega (arith, pow-suc 2 k))

pow_half : (x k : ℕ) → x / 2 ^ k / 2 ≡ x / 2 ^ suc k
pow_half x k = div-div-eq-div-mul x (2 ^ k) 2 ∙ ap (λ t. x / t) (sym (pow-suc 2 k))

-- From the other end.
pub rev-top : (k x : ℕ) → rev (suc k) x ≡ 2 * rev k x + x / 2 ^ k % 2
unfolding rev
rev-top zero x = omega arith
rev-top (suc k) x = rw (← half_pow x k) (omega (arith, rev-top k (x / 2), double (x % 2) k))

-- Digits from `k` on do not count.
pub rev-add : (k p x : ℕ) → rev k (p * 2 ^ k + x) ≡ rev k x
unfolding rev
rev-add zero p x = refl
rev-add (suc k) p x =
    let low : (p * 2 ^ suc k + x) % 2 ≡ x % 2 = omega (arith, double p k) in
    let half : (p * 2 ^ suc k + x) / 2 ≡ p * 2 ^ k + x / 2 = omega (arith, double p k) in
    rw (low, half, rev-add k p (x / 2))

pub rev-low : (k x : ℕ) → rev (suc k) x ≡ x % 2 * 2 ^ k + rev k (x / 2)
unfolding rev
rev-low k x = refl

-- Twice is the word itself.
pub rev-rev : (k x : ℕ) → x < 2 ^ k → rev k (rev k x) ≡ x
rev-rev zero x h = zero_bits (omega arith)
  where
    zero_bits : x ≡ 0 → rev 0 (rev 0 x) ≡ x
    zero_bits e = rw e (rev-zero (rev 0 0))
rev-rev (suc k) x h =
    let top : ℕ = x / 2 ^ k in
    let low : ℕ = x % 2 ^ k in
    let parts : top * 2 ^ k + low ≡ x = div-add-mod' x (2 ^ k) in
    let back : rev k (rev k low) ≡ low = rev-rev k low (mod-lt x (one-le-pow k 2 (omega arith))) in
    let same : rev k x ≡ rev k low = ap (rev k) (sym parts) ∙ rev-add k top low in
    let small : top < 2 =
      (div-lt_iff_lt-mul (one-le-pow k 2 (omega arith))).1 (omega (arith, pow-suc 2 k)) in
    let y : ℕ = rev (suc k) x in
    let ends : y ≡ 2 * rev k x + top % 2 = rev-top k x in
    let last : y % 2 ≡ top = omega arith in
    let first : y / 2 ≡ rev k x = omega arith in rev-low k y ∙ rw (last, first, same, back) parts

digit_xor : (a b : ℕ) → bit_xor (a % 2) (b % 2) ≡ differ (a % 2) (b % 2)
digit_xor a b = ground (arith, bit_xor_step (a % 2) (b % 2))

pub rev-bit_xor : (k a b : ℕ) → rev k (bit_xor a b) ≡ bit_xor (rev k a) (rev k b)
unfolding rev
rev-bit_xor zero a b = refl
rev-bit_xor (suc k) a b =
    let step = bit_xor_step a b in
    let small = differ_lt a b in
    let low : bit_xor a b % 2 ≡ bit_xor (a % 2) (b % 2) =
      omega (arith, step, small, digit_xor a b) in
    let half : bit_xor a b / 2 ≡ bit_xor (a / 2) (b / 2) = omega (arith, step, small) in
    let parts =
      bit_xor_parts k (a % 2) (b % 2) (rev k (a / 2)) (rev k (b / 2)) (rev-lt k (a / 2))
        (rev-lt k (b / 2)) in
    rw (low, half, rev-bit_xor k (a / 2) (b / 2)) (sym parts.0)

-- The loop writes the reversal above what it has written.
pub invert_loop-rev :
    (n i src q : ℕ) → invert_loop n i src (q * 2 ^ n) ≡ q * 2 ^ n + rev n (src / 2 ^ i)
unfolding invert_loop rev
invert_loop-rev zero i src q = omega arith
invert_loop-rev (suc n) i src q =
    let w : ℕ = src / 2 ^ i in
    let next : src / 2 ^ i / 2 ≡ src / 2 ^ (i + 1) =
      pow_half src i ∙ ap (λ (t : ℕ). src / 2 ^ t) (omega arith) in
    let digit : bit_and src (2 ^ i) ≡ w % 2 * 2 ^ i = bit_and_pow i src in
    elim (ℕ_discrete (w % 2) 0) [
      | yes off ↦
          let test : (bit_and src (2 ^ i) == 0) ≡ true =
            (==_iff _ 0).1 (digit ∙ rw off (omega arith)) in
          let kept : q * 2 ^ suc n ≡ (2 * q) * 2 ^ n = omega (arith, double q n) in
          rw (test, next, off, kept) (invert_loop-rev n (i + 1) src (2 * q) ∙ omega arith)
      | no on ↦
          let one : w % 2 ≡ 1 = omega arith in
          let some_digit : bit_and src (2 ^ i) ≢ 0 =
            omega (arith, digit, rw one at digit, one-le-pow i 2) in
          let test : (bit_and src (2 ^ i) == 0) ≡ false = ground arith in
          let added : bit_or (q * 2 ^ suc n) (2 ^ n) ≡ (2 * q + 1) * 2 ^ n =
            bit_or_pow n q ∙ omega (arith, double q n) in
          rw (test, next, one, added)
            (invert_loop-rev n (i + 1) src (2 * q + 1) ∙ omega (arith, double q n))
    ]
