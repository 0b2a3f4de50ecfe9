-- ===== src/Crc/Modbus.antt =====
-- socket/socket_raw/CRC.c against the usual definition of this checksum, which shifts to the right,
-- uses the reversed polynomial 0xa001 and reverses nothing.
use Prim.Native.Nat.{bit_and, bit_xor}
use learn_c_linux.Prelude.{
  ℕ, zero, suc, ◌+◌, ◌*◌, ◌/◌, ◌%◌, ◌^◌, ◌<◌, ◌≡◌, refl, sym, ap, ap₂, ◌∙◌, true, false, List, [],
  ◌∷◌, arith, ◌==◌, ==_iff, if◌then◌else◌, ℕ_discrete, All,
}
use learn_c_linux.Prelude.Bits.{bit_and_pow, bit_xor_parts}
use learn_c_linux.Crc.{
  invert_uint8, invert_uint16, poly, crc_bit, crc_bits, crc_byte, crc_loop, crc16_modbus,
}
use learn_c_linux.Crc.Reverse.{
  rev, rev-lt, rev-low, rev-top, rev-add, rev-rev, rev-bit_xor, invert_loop-rev,
}

abbrev pub IsByte : ℕ → Type 0
IsByte b = b < 256

-- The reflected algorithm.
pub modbus_bit : ℕ → ℕ
modbus_bit y = if y % 2 == 0 then y / 2 else bit_xor (y / 2) 0xa001

pub modbus_bits : ℕ → ℕ → ℕ
modbus_bits zero y = y
modbus_bits (suc n) y = modbus_bits n (modbus_bit y)

pub modbus_loop : ℕ → List ℕ → ℕ
unfolding modbus_bits modbus_bit
modbus_loop y [] = y
modbus_loop y (b ∷ msg) = modbus_loop (modbus_bits 8 (bit_xor y b)) msg

pub invert_uint8-rev : (x : ℕ) → invert_uint8 x ≡ rev 8 x
unfolding invert_uint8
invert_uint8-rev x =
    let whole : x / 2 ^ 0 ≡ x = omega arith in invert_loop-rev 8 0 x 0 ∙ rw whole (omega arith)

pub invert_uint16-rev : (x : ℕ) → invert_uint16 x ≡ rev 16 x
unfolding invert_uint16
invert_uint16-rev x =
    let whole : x / 2 ^ 0 ≡ x = omega arith in invert_loop-rev 16 0 x 0 ∙ rw whole (omega arith)

-- Reversing a byte or a 16-bit word twice gives it back, and no reversal leaves the word's range.
pub invert_twice :
    (x y : ℕ)
    → x < 2 ^ 8
    → y < 2 ^ 16
    → (invert_uint8 (invert_uint8 x) ≡ x)
      × (invert_uint8 x < 2 ^ 8)
      × (invert_uint16 (invert_uint16 y) ≡ y)
      × (invert_uint16 y < 2 ^ 16)
invert_twice x y hx hy =
    rw (invert_uint8-rev, invert_uint8-rev, invert_uint16-rev, invert_uint16-rev)
      (rev-rev 8 x hx, rev-lt 8 x, rev-rev 16 y hy, rev-lt 16 y)

bit_xor-lt : (a b : ℕ) → a < 2 ^ 16 → b < 2 ^ 16 → bit_xor a b < 2 ^ 16
bit_xor-lt a b ha hb = (bit_xor_parts 16 0 0 a b ha hb).1

rev-cut : (x : ℕ) → rev 16 (x % 2 ^ 16) ≡ rev 16 x
rev-cut x = sym (rev-add 16 (x / 2 ^ 16) (x % 2 ^ 16)) ∙ ap (rev 16) (omega arith)

rev-double : (k x : ℕ) → rev (suc k) (x * 2) ≡ rev k x
rev-double k x =
    let low : x * 2 % 2 ≡ 0 = omega arith in
    let half : x * 2 / 2 ≡ x = omega arith in rev-low k (x * 2) ∙ rw (low, half) (omega arith)

reversed_poly : rev 16 poly ≡ 0xa001
unfolding rev
reversed_poly = refl

ones : rev 16 0xffff ≡ 0xffff
unfolding rev
ones = refl

crc_bit-rev : (x : ℕ) → rev 16 (crc_bit x) ≡ modbus_bit (rev 16 x)
unfolding crc_bit modbus_bit
crc_bit-rev x =
    let digit : bit_and x 0x8000 ≡ x / 2 ^ 15 % 2 * 2 ^ 15 = bit_and_pow 15 x in
    let top : rev 16 x ≡ 2 * rev 15 x + x / 2 ^ 15 % 2 = rev-top 15 x in
    let half : rev 16 x / 2 ≡ rev 15 x = omega arith in
    elim (ℕ_discrete (x / 2 ^ 15 % 2) 0) [
      | yes off ↦
          let test : (bit_and x 0x8000 == 0) ≡ true = (==_iff _ 0).1 (omega arith) in
          let even : (rev 16 x % 2 == 0) ≡ true = (==_iff _ 0).1 (omega arith) in
          rw (test, even, half) (rev-cut (x * 2) ∙ rev-double 15 x)
      | no on ↦
          let test : (bit_and x 0x8000 == 0) ≡ false = ground (arith, digit, on) in
          let odd : (rev 16 x % 2 == 0) ≡ false = ground (arith, top, on) in
          rw (test, odd, half)
            (rev-cut (bit_xor (x * 2) poly)
              ∙ (rev-bit_xor 16 (x * 2) poly ∙ ap₂ bit_xor (rev-double 15 x) reversed_poly))
    ]

crc_bits-rev : (n x : ℕ) → rev 16 (crc_bits n x) ≡ modbus_bits n (rev 16 x)
unfolding crc_bits modbus_bits
crc_bits-rev zero x = refl
crc_bits-rev (suc n) x = crc_bits-rev n (crc_bit x) ∙ ap (modbus_bits n) (crc_bit-rev x)

shift_one : (k c m : ℕ) → rev (suc k) (c * (m * 2)) ≡ rev k (c * m)
shift_one k c m = ap (rev (suc k)) (omega arith) ∙ rev-double k (c * m)

rev-shift : (c : ℕ) → rev 16 (c * 256) ≡ rev 8 c
rev-shift c =
    shift_one 15 c 128
    ∙ (shift_one 14 c 64
        ∙ (shift_one 13 c 32
            ∙ (shift_one 12 c 16
                ∙ (shift_one 11 c 8
                    ∙ (shift_one 10 c 4
                        ∙ (shift_one 9 c 2 ∙ (shift_one 8 c 1 ∙ ap (rev 8) (omega arith))))))))

crc_byte-rev : (x b : ℕ) → IsByte b → rev 16 (crc_byte x b) ≡ modbus_bits 8 (bit_xor (rev 16 x) b)
unfolding crc_byte
crc_byte-rev x b hb =
    crc_bits-rev 8 (bit_xor x (invert_uint8 b * 256 % 2 ^ 16))
    ∙ ap (modbus_bits 8)
        (rev-bit_xor 16 x (invert_uint8 b * 256 % 2 ^ 16) ∙ ap (bit_xor (rev 16 x)) byte)
  where
    byte : rev 16 (invert_uint8 b * 256 % 2 ^ 16) ≡ b
    byte =
        rev-cut (invert_uint8 b * 256)
        ∙ (rev-shift (invert_uint8 b) ∙ (ap (rev 8) (invert_uint8-rev b) ∙ rev-rev 8 b hb))

crc_loop-rev :
    (x : ℕ) (msg : List ℕ) → All IsByte msg → rev 16 (crc_loop x msg) ≡ modbus_loop (rev 16 x) msg
unfolding crc_loop modbus_loop
crc_loop-rev x [] h = refl
crc_loop-rev x (b ∷ msg) h =
    crc_loop-rev (crc_byte x b) msg h.1 ∙ ap (λ y. modbus_loop y msg) (crc_byte-rev x b h.0)

-- On every message of bytes `CRC16_MODBUS` returns what the reflected algorithm with initial value
-- 0xffff returns, and the result fits 16 bits.
pub crc16_modbus-modbus_loop :
    (msg : List ℕ)
    → All IsByte msg
    → (crc16_modbus msg ≡ modbus_loop 0xffff msg) × (crc16_modbus msg < 2 ^ 16)
unfolding crc16_modbus
crc16_modbus-modbus_loop msg h =
    let e = invert_uint16-rev (crc_loop 0xffff msg) in
    (e ∙ (crc_loop-rev 0xffff msg h ∙ ap (λ y. modbus_loop y msg) ones), rw e (rev-lt 16 _))
