-- ===== src/Crc/Tests.antt =====
-- Runs of socket/socket_raw/CRC.c, and its theorems at concrete inputs.
use learn_c_linux.Prelude.{ℕ, ◌^◌, ◌<◌, ◌≡◌, refl, List, [], ◌∷◌, arith}
use learn_c_linux.Crc.{invert_uint8, invert_uint16, crc16_modbus}
use learn_c_linux.Crc.Modbus.{modbus_loop, invert_twice, crc16_modbus-modbus_loop}

-- The published check value: the checksum of the text "123456789".
abbrev digits_text : List ℕ
digits_text = 0x31 ∷ 0x32 ∷ 0x33 ∷ 0x34 ∷ 0x35 ∷ 0x36 ∷ 0x37 ∷ 0x38 ∷ 0x39 ∷ []

check_value : crc16_modbus digits_text ≡ 0x4b37
unfolding crc16_modbus
check_value = refl

invert_runs : invert_uint8 0x13 ≡ 0xc8
unfolding invert_uint8
invert_runs = refl

invert_twice_example :
    (invert_uint8 (invert_uint8 0x13) ≡ 0x13)
    × (invert_uint8 0x13 < 2 ^ 8)
    × (invert_uint16 (invert_uint16 0x1234) ≡ 0x1234)
    × (invert_uint16 0x1234 < 2 ^ 16)
invert_twice_example = invert_twice 0x13 0x1234 (omega arith) (omega arith)

crc16_modbus-modbus_loop_example :
    (crc16_modbus digits_text ≡ modbus_loop 0xffff digits_text)
    × (crc16_modbus digits_text < 2 ^ 16)
crc16_modbus-modbus_loop_example = crc16_modbus-modbus_loop digits_text (omega arith)
