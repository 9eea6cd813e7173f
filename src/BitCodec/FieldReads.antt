-- ===== src/BitCodec/FieldReads.antt =====
-- The bytes that `read<Field>` looks at, and the number that they spell.
use native.Mathlib.Nat.{
  div-eq_of_lt, mod-eq_of_lt, div-add-mod', mod-lt, pow-le-pow_right, div-lt_iff_lt-mul,
}
use servo_fleet.Prelude.{
  ℕ, zero, suc, ◌+◌, ◌-◌, ◌*◌, ◌/◌, ◌%◌, ◌^◌, ◌≤◌, ◌<◌, ◌≡◌, ap, ap₂, ◌∙◌, sym, true, ◌==◌, ltb,
  if◌then◌else◌, List, length, get_or, some, arith, All-get_or, bit_and,
}
use servo_fleet.Words.{AreBytes, IsByte}
use servo_fleet.Words.Digits.{bit_and_mask, bit_and_fields, bit_and-zero}
use servo_fleet.Words.Powers.{pow_pos, pow-add}
use servo_fleet.Words.Join.{pair_value, quad_value}
use servo_fleet.Error.{FleetErr, expected, unexpected}
use servo_fleet.BitCodec.{Bits, read_aligned, read_u32_be, bad_range, is_byte_field, mask32}
use servo_fleet.BitCodec.View.{bit_at, bits_value, bits_value-append, bits_value_byte}
use servo_fleet.BitCodec.Reading.{read_range-eq}

-- A field that the code can name, in a buffer whose bits `size_t` can count.
pub record IsField (f : Bits) (bytes : List ℕ) : Type 0 where
  pub nonempty : 0 < f.len
  pub narrow : f.len ≤ 32
  pub countable : length bytes < 2 ^ 60
  pub nearby : f.offset < 2 ^ 63

abbrev pub Fits : Bits → List ℕ → Type 0
Fits f bytes = f.offset + f.len ≤ 8 * length bytes

-- The number that the bits of the field spell.
unfoldable pub field_value : Bits → List ℕ → ℕ
field_value f bytes = bits_value (bit_at bytes) f.offset f.len

mask32-eq : (n : ℕ) → n ≤ 32 → mask32 n ≡ 2 ^ n - 1
unfolding mask32
mask32-eq n h = ground (arith, pow-le-pow_right {n = 2} (omega arith) {i = n} {j = 31})

sub_one_mul : (p m : ℕ) → 0 < p → (p - 1) * m + m ≡ p * m
sub_one_mul zero m h = absurd (omega arith)
sub_one_mul (suc p) m h = grind arith

-- What `raw & ~field_mask` keeps.
outside_mask :
    (n raw : ℕ) → n ≤ 32 → raw < 2 ^ 32 → bit_and raw (0xffff_ffff - mask32 n) ≡ raw / 2 ^ n * 2 ^ n
outside_mask n raw h hr =
    ap₂ bit_and (sym (div-add-mod' raw (2 ^ n))) complement
    ∙ bit_and_fields n (raw / 2 ^ n) (raw % 2 ^ n) (2 ^ (32 - n) - 1) 0 (mod-lt raw (pow_pos n))
        (pow_pos n)
    ∙ ap₂ (λ p q. p * 2 ^ n + q)
        (bit_and_mask (32 - n) (raw / 2 ^ n)
          ∙ mod-eq_of_lt ((div-lt_iff_lt-mul (pow_pos n)).1 (rw whole at hr)))
        (bit_and-zero (raw % 2 ^ n))
    ∙ omega arith
  where
    whole : 2 ^ 32 ≡ 2 ^ (32 - n) * 2 ^ n
    whole = ap (λ (k : ℕ). 2 ^ k) {x = 32} {y = 32 - n + n} (omega arith) ∙ pow-add (32 - n) n

    complement : 0xffff_ffff - mask32 n ≡ (2 ^ (32 - n) - 1) * 2 ^ n + 0
    complement = omega (
      arith,
      mask32-eq n h,
      whole,
      pow_pos n,
      sub_one_mul (2 ^ (32 - n)) (2 ^ n) (pow_pos (32 - n)),
    )

below_zero : (n raw : ℕ) → raw < 2 ^ n → raw / 2 ^ n * 2 ^ n ≡ 0
below_zero n raw h = ap (λ (q : ℕ). q * 2 ^ n) (div-eq_of_lt h) ∙ omega arith

pub mask_test :
    (n raw : ℕ)
    → n ≤ 32
    → raw < 2 ^ 32
    → (bit_and raw (0xffff_ffff - mask32 n) == 0) ≡ ltb raw (2 ^ n)
mask_test n raw h hr = ground (
  arith,
  outside_mask n raw h hr,
  below_zero n raw,
  div-add-mod' raw (2 ^ n),
  mod-lt raw (pow_pos n),
)

pub bad_range-eq :
    (f : Bits) (bytes : List ℕ)
    → IsField f bytes
    → bad_range (some bytes) (length bytes) f.offset f.len
      ≡ ltb (8 * length bytes) (f.offset + f.len)
unfolding bad_range
bad_range-eq f bytes v = ground arith

-- Two and four bytes of the bit view.
bits_value_pair :
    (bytes : List ℕ) (o : ℕ)
    → AreBytes bytes
    → bits_value (bit_at bytes) (8 * o) 16 ≡ get_or bytes o 0 * 256 + get_or bytes (o + 1) 0
bits_value_pair bytes o hb =
    let next : 8 * o + 8 ≡ 8 * (o + 1) = omega arith in
    bits_value-append (bit_at bytes) (8 * o) 8 8
    ∙ rw next (omega (arith, bits_value_byte bytes o hb, bits_value_byte bytes (o + 1) hb))

bits_value_quad :
    (bytes : List ℕ) (o : ℕ)
    → AreBytes bytes
    → bits_value (bit_at bytes) (8 * o) 32
      ≡ (get_or bytes o 0 * 256 + get_or bytes (o + 1) 0) * 65536
        + (get_or bytes (o + 2) 0 * 256 + get_or bytes (o + 3) 0)
bits_value_quad bytes o hb =
    let next : 8 * o + 16 ≡ 8 * (o + 2) = omega arith in
    let last : o + 2 + 1 ≡ o + 3 = omega arith in
    bits_value-append (bit_at bytes) (8 * o) 16 16
    ∙ rw next
        (omega (arith, bits_value_pair bytes o hb, rw last at (bits_value_pair bytes (o + 2) hb)))

pub read_aligned-eq :
    (f : Bits) (bytes : List ℕ)
    → AreBytes bytes
    → is_byte_field f ≡ true
    → Fits f bytes
    → read_aligned f bytes ≡ expected (field_value f bytes)
unfolding read_aligned is_byte_field field_value
read_aligned-eq f bytes hb e fits =
    let byte : (i : ℕ) → get_or bytes i 0 < 256 =
      λ i. All-get_or IsByte bytes i 0 hb (omega arith) in
    let o = f.offset / 8 in
    let at : 8 * o ≡ f.offset = ground arith in
    ground (
      arith,
      ap (λ k. bits_value (bit_at bytes) k f.len) at,
      bits_value_byte bytes o hb,
      bits_value_pair bytes o hb,
      bits_value_quad bytes o hb,
      pair_value (get_or bytes o 0) (get_or bytes (o + 1) 0) (byte o) (byte (o + 1)),
      quad_value (get_or bytes o 0) (get_or bytes (o + 1) 0) (get_or bytes (o + 2) 0)
          (get_or bytes (o + 3) 0) (byte o) (byte (o + 1)) (byte (o + 2)) (byte (o + 3)),
    )

pub read_aligned_short :
    (f : Bits) (bytes : List ℕ)
    → is_byte_field f ≡ true
    → 8 * length bytes < f.offset + f.len
    → read_aligned f bytes ≡ unexpected FleetErr.invalid_argument
unfolding read_aligned is_byte_field
read_aligned_short f bytes e h = ground arith

pub read_u32_be-eq :
    (f : Bits) (bytes : List ℕ)
    → AreBytes bytes
    → IsField f bytes
    → read_u32_be (some bytes) (length bytes) f.offset f.len ≡ (
        if ltb (8 * length bytes) (f.offset + f.len)
        then unexpected FleetErr.invalid_argument
        else expected (field_value f bytes))
unfolding read_u32_be field_value
read_u32_be-eq f bytes hb v =
    rw (bad_range-eq f bytes v, read_range-eq bytes f.offset f.len hb v.narrow)
