-- ===== src/BitCodec/Tests.antt =====
-- Fields of a small buffer.
use servo_fleet.Prelude.{
  ℕ, ◌≡◌, refl, List, [], ◌∷◌, arith, inr, length, ltb, if◌then◌else◌, ◌+◌, ◌*◌, none,
}
use servo_fleet.Error.{FleetErr, expected, unexpected}
use servo_fleet.BitCodec.{
  Bits, read, write, read_u32_be, write_u32_be, read_aligned, write_aligned, is_byte_field, mask32,
}
use servo_fleet.BitCodec.Fields.{read_lem}
use servo_fleet.BitCodec.FieldReads.{field_value}
use servo_fleet.BitCodec.Laws.{write-IsWritten, read-write_self, read-write-Disjoint}
use servo_fleet.BitCodec.BitLoop.{IsWritten}

abbrev buffer : List ℕ
buffer = 0x12 ∷ 0x34 ∷ 0x56 ∷ []

abbrev kp : Bits
kp = record { offset = 3; len = 12 }

abbrev whole_byte : Bits
whole_byte = record { offset = 16; len = 8 }

abbrev late : Bits
late = record { offset = 20; len = 12 }

reading_kp : read kp buffer ≡ expected 0x91a
unfolding read is_byte_field read_aligned read_u32_be
reading_kp = refl

writing_kp : write kp 0xfff buffer ≡ (FleetErr.ok, 0x1f ∷ 0xfe ∷ 0x56 ∷ [])
unfolding write is_byte_field write_aligned write_u32_be mask32
writing_kp = refl

write_wide : write kp 0x1000 buffer ≡ (FleetErr.invalid_argument, buffer)
unfolding write is_byte_field write_aligned write_u32_be mask32
write_wide = refl

null_read : read_u32_be none 0 0 8 ≡ unexpected FleetErr.invalid_argument
unfolding read_u32_be
null_read = refl

read_lem_example : read late buffer ≡ (
    if ltb (8 * length buffer) (20 + 12)
    then unexpected FleetErr.invalid_argument
    else expected (field_value late buffer))
read_lem_example = read_lem late buffer (omega arith) (omega arith)

write-IsWritten_example :
    ((write kp 5 buffer).0 ≡ FleetErr.ok) × IsWritten buffer (write kp 5 buffer).1 3 15 15 5
write-IsWritten_example =
    write-IsWritten kp 5 buffer (omega arith) (omega arith) (omega arith) (omega arith)

read-write_self_example : read kp (write kp 5 buffer).1 ≡ expected 5
read-write_self_example =
    read-write_self kp 5 buffer (omega arith) (omega arith) (omega arith) (omega arith)

read-write-Disjoint_example : read whole_byte (write kp 5 buffer).1 ≡ read whole_byte buffer
read-write-Disjoint_example =
    read-write-Disjoint kp whole_byte 5 buffer (omega arith) (omega arith) (omega arith)
      (omega arith) (omega arith) (inr (omega arith))
