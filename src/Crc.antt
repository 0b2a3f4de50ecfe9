-- ===== src/Crc.antt =====
-- socket/socket_raw/CRC.c: bit reversal of a byte and of a 16-bit word, and the CRC of a message. A
-- function that writes through its first pointer returns what it writes.
pub mod Reverse
pub mod Modbus
mod Tests
use Prim.Native.Nat.{bit_and, bit_or, bit_xor}
use learn_c_linux.Prelude.{
  ℕ, zero, suc, ◌+◌, ◌-◌, ◌*◌, ◌%◌, ◌^◌, List, [], ◌∷◌, ◌==◌, if◌then◌else◌,
}

-- The loop of `InvertUint8` and `InvertUint16` for a word of `n + i` bits, with `n` rounds left at `i`:
-- `if (src & (1 << i)) temp |= 1 << (width - 1 - i)`.
unfoldable pub invert_loop : ℕ → ℕ → ℕ → ℕ → ℕ
invert_loop zero i src temp = temp
invert_loop (suc n) i src temp =
    invert_loop n (i + 1) src (if bit_and src (2 ^ i) == 0 then temp else bit_or temp (2 ^ n))

unfoldable pub invert_uint8 : ℕ → ℕ
unfolding invert_loop
invert_uint8 src = invert_loop 8 0 src 0

unfoldable pub invert_uint16 : ℕ → ℕ
unfolding invert_loop
invert_uint16 src = invert_loop 16 0 src 0

abbrev pub poly : ℕ
poly = 0x8005

-- One round of the inner loop of `CRC16_MODBUS`, on an `unsigned short`.
unfoldable pub crc_bit : ℕ → ℕ
crc_bit crc = if bit_and crc 0x8000 == 0 then crc * 2 % 2 ^ 16 else bit_xor (crc * 2) poly % 2 ^ 16

unfoldable pub crc_bits : ℕ → ℕ → ℕ
unfolding crc_bit
crc_bits zero crc = crc
crc_bits (suc n) crc = crc_bits n (crc_bit crc)

-- The body of the outer loop for the byte `char`.
unfoldable pub crc_byte : ℕ → ℕ → ℕ
unfolding invert_uint8 crc_bits
crc_byte crc char = crc_bits 8 (bit_xor crc (invert_uint8 char * 256 % 2 ^ 16))

unfoldable pub crc_loop : ℕ → List ℕ → ℕ
unfolding crc_byte
crc_loop crc [] = crc
crc_loop crc (char ∷ msg) = crc_loop (crc_byte crc char) msg

-- `CRC16_MODBUS` on the bytes of the message.
unfoldable pub crc16_modbus : List ℕ → ℕ
unfolding crc_loop invert_uint16
crc16_modbus msg = invert_uint16 (crc_loop 0xffff msg)
