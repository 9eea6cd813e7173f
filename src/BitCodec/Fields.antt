-- ===== src/BitCodec/Fields.antt =====
-- `read<Field>` and `write<Field>` on every branch.
use native.Mathlib.Nat.{div-eq_of_lt}
use servo_fleet.Prelude.{
  ℕ, ◌+◌, ◌*◌, ◌/◌, ◌%◌, ◌^◌, ◌<◌, ◌≡◌, refl, ◌∙◌, true, ◌==◌, ltb, if◌then◌else◌, ◌⊎◌, inl, inr,
  List, length, set, some, arith,
}
use servo_fleet.Words.{AreBytes, u8, shr}
use servo_fleet.Error.{FleetErr, expected, unexpected}
use servo_fleet.BitCodec.{
  Bits, read, write, write_aligned, write_u32_be, is_aligned, is_byte_field, write_range,
  write_bytes,
}
use servo_fleet.BitCodec.FieldReads.{
  IsField, field_value, mask_test, bad_range-eq, read_aligned-eq, read_aligned_short,
  read_u32_be-eq,
}

-- `read<Field>` of a field inside the buffer is the number that its bits spell, whichever of the
-- three paths is taken; of a field that runs past the end it is `invalid_argument`.
pub read_lem :
    (f : Bits) (bytes : List ℕ)
    → AreBytes bytes
    → IsField f bytes
    → read f bytes ≡ (
        if ltb (8 * length bytes) (f.offset + f.len)
        then unexpected FleetErr.invalid_argument
        else expected (field_value f bytes))
unfolding read
read_lem f bytes hb v =
    ground
      (arith, read_aligned_short f bytes, read_aligned-eq f bytes hb, read_u32_be-eq f bytes hb v)

unrolled_one : (bytes : List ℕ) (o raw : ℕ) → write_bytes o 8 raw bytes 0 1 ≡ set bytes o (u8 raw)
unfolding write_bytes
unrolled_one bytes o raw =
    let first : o + 0 ≡ o = omega arith in
    let low : raw / 2 ^ 0 ≡ raw = omega arith in rw (first, low)

unrolled_two :
    (bytes : List ℕ) (o raw : ℕ)
    → write_bytes o 16 raw bytes 0 2 ≡ set (set bytes o (u8 (shr raw 8))) (o + 1) (u8 raw)
unfolding write_bytes
unrolled_two bytes o raw =
    let first : o + 0 ≡ o = omega arith in
    let low : raw / 2 ^ 0 ≡ raw = omega arith in rw (first, low)

unrolled_four :
    (bytes : List ℕ) (o raw : ℕ)
    → write_bytes o 32 raw bytes 0 4
      ≡ set
          (set
            (set (set bytes o (u8 (shr raw 24))) (o + 1) (u8 (shr raw 16)))
            (o + 2)
            (u8 (shr raw 8)))
          (o + 3)
          (u8 raw)
unfolding write_bytes
unrolled_four bytes o raw =
    let first : o + 0 ≡ o = omega arith in
    let low : raw / 2 ^ 0 ≡ raw = omega arith in rw (first, low)

byte_field_cases :
    (f : Bits)
    → is_byte_field f ≡ true
    → (f.offset % 8 ≡ 0) × ((f.len ≡ 8) ⊎ (f.len ≡ 16) ⊎ (f.len ≡ 32))
unfolding is_byte_field
byte_field_cases f = ground arith

write_range_bytes :
    (bytes : List ℕ) (off len raw : ℕ)
    → off % 8 ≡ 0
    → len % 8 ≡ 0
    → write_range bytes off len raw ≡ write_bytes (off / 8) len raw bytes 0 (len / 8)
unfolding write_range is_aligned
write_range_bytes bytes off len raw eo el = rw (eo, el)

abbrev sets_of : (len raw o : ℕ) → List ℕ → List ℕ
sets_of len raw o bytes =
    if len == 8
    then set bytes o (u8 raw)
    else if len == 16
    then set (set bytes o (u8 (shr raw 8))) (o + 1) (u8 raw)
    else set
        (set (set (set bytes o (u8 (shr raw 24))) (o + 1) (u8 (shr raw 16))) (o + 2)
          (u8 (shr raw 8)))
        (o + 3) (u8 raw)

write_range_sets :
    (bytes : List ℕ) (off len raw : ℕ)
    → off % 8 ≡ 0
    → (len ≡ 8) ⊎ (len ≡ 16) ⊎ (len ≡ 32)
    → write_range bytes off len raw ≡ sets_of len raw (off / 8) bytes
write_range_sets bytes off len raw eo (inl e) =
    rw e (write_range_bytes bytes off 8 raw eo refl ∙ unrolled_one bytes (off / 8) raw)
write_range_sets bytes off len raw eo (inr (inl e)) =
    rw e (write_range_bytes bytes off 16 raw eo refl ∙ unrolled_two bytes (off / 8) raw)
write_range_sets bytes off len raw eo (inr (inr e)) =
    rw e (write_range_bytes bytes off 32 raw eo refl ∙ unrolled_four bytes (off / 8) raw)

-- The aligned writes are the byte loop, unrolled.
write_aligned-eq :
    (f : Bits) (raw : ℕ) (bytes : List ℕ)
    → is_byte_field f ≡ true
    → write_aligned f raw bytes ≡ (
        if ltb (8 * length bytes) (f.offset + f.len)
        then (FleetErr.invalid_argument, bytes)
        else (FleetErr.ok, write_range bytes f.offset f.len raw))
unfolding write_aligned
write_aligned-eq f raw bytes e =
    let cases = byte_field_cases f e in
    ground (arith, cases, write_range_sets bytes f.offset f.len raw cases.0 cases.1)

write_u32_be-eq :
    (f : Bits) (raw : ℕ) (bytes : List ℕ)
    → IsField f bytes
    → raw < 2 ^ f.len
    → write_u32_be (some bytes) (length bytes) f.offset f.len raw ≡ (
        if ltb (8 * length bytes) (f.offset + f.len)
        then (FleetErr.invalid_argument, some bytes)
        else (FleetErr.ok, some (write_range bytes f.offset f.len raw)))
unfolding write_u32_be
write_u32_be-eq f raw bytes v h = rw (bad_range-eq f bytes v, div-eq_of_lt h) (ground arith)

-- `write<Field>` refuses a value that does not fit the field and a field that runs past the end,
-- and leaves the buffer as it was; otherwise both paths write the field.
pub write_lem :
    (f : Bits) (raw : ℕ) (bytes : List ℕ)
    → IsField f bytes
    → raw < 2 ^ 32
    → write f raw bytes ≡ (
        if ltb raw (2 ^ f.len)
        then (if ltb (8 * length bytes) (f.offset + f.len)
            then (FleetErr.invalid_argument, bytes)
            else (FleetErr.ok, write_range bytes f.offset f.len raw))
        else (FleetErr.invalid_argument, bytes))
unfolding write
write_lem f raw bytes v hr = ground (
  arith,
  mask_test f.len raw v.narrow hr,
  write_aligned-eq f raw bytes,
  write_u32_be-eq f raw bytes v,
)
