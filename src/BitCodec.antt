-- ===== src/BitCodec.antt =====
-- src/codec_bit.h and src/codec_bit.cc: fields of 1 to 32 bits, big-endian, at any bit offset of a
-- byte buffer. A pointer is `none` if it is null, and else the bytes that it points to; its length
-- is passed beside it. `size_t` sums and products wrap at 2 ^ 64.
pub mod View
pub mod Reading
pub mod BitLoop
pub mod Writing
pub mod FieldReads
pub mod Fields
pub mod Laws
mod Tests
use servo_fleet.Prelude.{
  ℕ, zero, suc, ◌+◌, ◌-◌, ◌*◌, ◌/◌, ◌%◌, ◌^◌, Bool, true, false, ◌&&◌, ◌||◌, not, ◌==◌, ltb, leb,
  if◌then◌else◌, List, [], ◌∷◌, length, get_or, set, Option, none, some, bit_and, bit_or,
}
use servo_fleet.Words.{u8, u32, shl, shr, shl32, add_size, mul_size}
use servo_fleet.Error.{FleetErr, Result, expected, unexpected}

pub record Bits : Type 0 where
  pub offset : ℕ
  pub len : ℕ

-- The guard that `read_u32_be` and `write_u32_be` share.
unfoldable pub bad_range : Option (List ℕ) → ℕ → ℕ → ℕ → Bool
bad_range none bytes_len bit_offset bit_len = true
bad_range (some bytes) bytes_len bit_offset bit_len =
    bit_len == 0 || ltb 32 bit_len || ltb (mul_size bytes_len 8) (add_size bit_offset bit_len)

unfoldable pub is_aligned : ℕ → ℕ → Bool
is_aligned bit_offset bit_len = bit_offset % 8 == 0 && bit_len % 8 == 0

-- The byte loop: `n` rounds left, the next byte at `at`.
unfoldable pub read_bytes : List ℕ → ℕ → ℕ → ℕ → ℕ
read_bytes bytes at zero value = value
read_bytes bytes at (suc n) value =
    read_bytes bytes (at + 1) n (bit_or (shl32 value 8) (get_or bytes at 0))

-- The bit loop: `n` rounds left, the next bit at `bit`.
unfoldable pub read_bits : List ℕ → ℕ → ℕ → ℕ → ℕ
read_bits bytes bit zero value = value
read_bits bytes bit (suc n) value =
    let byte = get_or bytes (bit / 8) 0 in
    let shift = u8 (7 - bit % 8) in
    read_bits bytes (bit + 1) n (bit_or (shl32 value 1) (bit_and (shr byte shift) 1))

unfoldable pub read_range : List ℕ → ℕ → ℕ → ℕ
unfolding read_bytes read_bits is_aligned
read_range bytes bit_offset bit_len =
    if is_aligned bit_offset bit_len
    then read_bytes bytes (bit_offset / 8) (bit_len / 8) 0
    else read_bits bytes bit_offset bit_len 0

abbrev pub deref : Option (List ℕ) → List ℕ
deref none = []
deref (some bytes) = bytes

unfoldable pub read_u32_be : Option (List ℕ) → ℕ → ℕ → ℕ → Result ℕ
unfolding bad_range read_range
read_u32_be bytes bytes_len bit_offset bit_len =
    if bad_range bytes bytes_len bit_offset bit_len
    then unexpected FleetErr.invalid_argument
    else expected (read_range (deref bytes) bit_offset bit_len)

-- The byte loop at round `i`, with `n` rounds left.
unfoldable pub write_bytes : (byte_offset bit_len value : ℕ) → List ℕ → ℕ → ℕ → List ℕ
write_bytes byte_offset bit_len value bytes i zero = bytes
write_bytes byte_offset bit_len value bytes i (suc n) =
    let shift = u32 (bit_len - 8 - i * 8) in
    write_bytes byte_offset bit_len value (set bytes (byte_offset + i) (u8 (shr value shift)))
      (i + 1) n

-- The low byte of `~mask`.
abbrev pub not8 : ℕ → ℕ
not8 mask = 255 - mask

-- One bit of a byte set or cleared.
unfoldable pub put_bit : ℕ → ℕ → Bool → ℕ
put_bit byte bit is_set =
    let mask = u8 (shl 1 (7 - bit)) in
    if is_set then u8 (bit_or byte mask) else u8 (bit_and byte (not8 mask))

-- The bit loop at round `i`, with `n` rounds left.
unfoldable pub write_bits : (bit_offset bit_len value : ℕ) → List ℕ → ℕ → ℕ → List ℕ
unfolding put_bit
write_bits bit_offset bit_len value bytes i zero = bytes
write_bits bit_offset bit_len value bytes i (suc n) =
    let bit = bit_offset + i in
    let is_set = not (bit_and (shr value (bit_len - 1 - i)) 1 == 0) in
    write_bits bit_offset bit_len value
      (set bytes (bit / 8) (put_bit (get_or bytes (bit / 8) 0) (bit % 8) is_set)) (i + 1) n

unfoldable pub write_range : List ℕ → ℕ → ℕ → ℕ → List ℕ
unfolding write_bytes write_bits is_aligned
write_range bytes bit_offset bit_len value =
    if is_aligned bit_offset bit_len
    then write_bytes (bit_offset / 8) bit_len value bytes 0 (bit_len / 8)
    else write_bits bit_offset bit_len value bytes 0 bit_len

unfoldable pub write_u32_be : Option (List ℕ) → ℕ → ℕ → ℕ → ℕ → FleetErr × Option (List ℕ)
unfolding bad_range write_range
write_u32_be bytes bytes_len bit_offset bit_len value =
    if bad_range bytes bytes_len bit_offset bit_len
    then (FleetErr.invalid_argument, bytes)
    else if ltb bit_len 32 && not (shr value bit_len == 0)
    then (FleetErr.invalid_argument, bytes)
    else (FleetErr.ok, some (write_range (deref bytes) bit_offset bit_len value))

unfoldable pub mask32 : ℕ → ℕ
mask32 bits = if leb 32 bits then 0xffff_ffff else shl32 1 bits - 1

-- The fields that `read` and `write` handle byte by byte.
unfoldable pub is_byte_field : Bits → Bool
is_byte_field f = f.offset % 8 == 0 && (f.len == 8 || f.len == 16 || f.len == 32)

unfoldable pub read_aligned : Bits → List ℕ → Result ℕ
read_aligned f bytes =
    let o = f.offset / 8 in
    let b0 = get_or bytes o 0 in
    let b1 = get_or bytes (o + 1) 0 in
    let b2 = get_or bytes (o + 2) 0 in
    let b3 = get_or bytes (o + 3) 0 in
    if ltb (length bytes) (o + f.len / 8)
    then unexpected FleetErr.invalid_argument
    else if f.len == 8
    then expected b0
    else if f.len == 16
    then expected (bit_or (shl32 b0 8) b1)
    else expected (bit_or (bit_or (bit_or (shl32 b0 24) (shl32 b1 16)) (shl32 b2 8)) b3)

unfoldable pub write_aligned : Bits → ℕ → List ℕ → FleetErr × List ℕ
write_aligned f raw bytes =
    let o = f.offset / 8 in
    if ltb (length bytes) (o + f.len / 8)
    then (FleetErr.invalid_argument, bytes)
    else if f.len == 8
    then (FleetErr.ok, set bytes o (u8 raw))
    else if f.len == 16
    then (FleetErr.ok, set (set bytes o (u8 (shr raw 8))) (o + 1) (u8 raw))
    else (
      FleetErr.ok,
      set
          (set (set (set bytes o (u8 (shr raw 24))) (o + 1) (u8 (shr raw 16))) (o + 2)
            (u8 (shr raw 8)))
          (o + 3) (u8 raw),
    )

unfoldable pub read : Bits → List ℕ → Result ℕ
read f bytes =
    if is_byte_field f
    then read_aligned f bytes
    else read_u32_be (some bytes) (length bytes) f.offset f.len

-- What is left in the buffer of a call of `write_u32_be`.
abbrev pub in_place : FleetErr × Option (List ℕ) → FleetErr × List ℕ
in_place (e, bytes) = (e, deref bytes)

unfoldable pub write : Bits → ℕ → List ℕ → FleetErr × List ℕ
write f raw bytes =
    if not (bit_and raw (0xffff_ffff - mask32 f.len) == 0)
    then (FleetErr.invalid_argument, bytes)
    else if is_byte_field f
    then write_aligned f raw bytes
    else in_place (write_u32_be (some bytes) (length bytes) f.offset f.len raw)
