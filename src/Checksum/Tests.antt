-- ===== src/Checksum/Tests.antt =====
-- The checksum at concrete inputs.
use servo_fleet.Prelude.{ℕ, ◌≡◌, refl, List, [], ◌∷◌, arith}
use servo_fleet.Checksum.{crc16_ccitt, entry_rounds, entry_round}
use servo_fleet.Checksum.Serial.{crc_serial, crc_byte}
use servo_fleet.Checksum.Slices.{crc16_ccitt-eq-crc_serial}

-- "123456789", whose CRC-16/XMODEM is 0x31C3.
abbrev nine_digits : List ℕ
nine_digits = 0x31 ∷ 0x32 ∷ 0x33 ∷ 0x34 ∷ 0x35 ∷ 0x36 ∷ 0x37 ∷ 0x38 ∷ 0x39 ∷ []

check_value : crc_serial 0 nine_digits ≡ 0x31c3
unfolding crc_serial crc_byte entry_rounds entry_round
check_value = refl

short_value : crc16_ccitt (0x31 ∷ 0x32 ∷ []) ≡ 0x20b5
unfolding crc16_ccitt
short_value = refl

crc16_ccitt-eq-crc_serial_example : crc16_ccitt nine_digits ≡ crc_serial 0 nine_digits
crc16_ccitt-eq-crc_serial_example = crc16_ccitt-eq-crc_serial nine_digits (omega arith)
