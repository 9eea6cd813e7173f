-- ===== src/BitCodec/Reading.antt =====
-- What the read loops return, in terms of the bits of the buffer.
use native.Mathlib.Nat.{pow-succ' as pow-suc', mod-eq_of_lt}
use servo_fleet.Prelude.{
  ℕ, zero, suc, ◌+◌, ◌-◌, ◌*◌, ◌/◌, ◌%◌, ◌^◌, ◌≤◌, ◌<◌, ◌≡◌, ap, ap₂, ◌∙◌, sym, List, get_or, arith,
  All-get_or, bit_and, bit_or,
}
use servo_fleet.Words.{AreBytes, IsByte, u8, shl32, shr}
use servo_fleet.Words.Digits.{bit_or_fields, bit_and_mask}
use servo_fleet.Words.Powers.{pow-add, lt-pow_mono}
use servo_fleet.BitCodec.{read_bits, read_bytes, read_range, is_aligned}
use servo_fleet.BitCodec.View.{
  bit_at, bit_at-lt, bit_of, bits_value, bits_value-append, bits_value_byte,
}

-- `(value << k) | field` while the result fits 32 bits.
pub shift_in :
    (k m value field : ℕ)
    → value < 2 ^ m
    → field < 2 ^ k
    → m + k ≤ 32
    → (bit_or (shl32 value k) field ≡ value * 2 ^ k + field) × (value * 2 ^ k + field < 2 ^ (m + k))
shift_in k m value field hv hf le = (rw fits (bit_or_fields k value field hf), below)
  where
    below : value * 2 ^ k + field < 2 ^ (m + k)
    below = grind (arith, pow-add m k)

    fits : shl32 value k ≡ value * 2 ^ k
    fits = mod-eq_of_lt (omega (arith, lt-pow_mono (value * 2 ^ k + field) below le))

code_bit :
    (bytes : List ℕ) (bit : ℕ)
    → bit_and (shr (get_or bytes (bit / 8) 0) (u8 (7 - bit % 8))) 1 ≡ bit_at bytes bit
unfolding bit_at
code_bit bytes bit =
    bit_and_mask 1 (shr (get_or bytes (bit / 8) 0) (u8 (7 - bit % 8)))
    ∙ ap (bit_of (get_or bytes (bit / 8) 0)) (omega arith)

regroup : (v p q k r : ℕ) → (v * k + p) * q + r ≡ v * (k * q) + (p * q + r)
regroup v p q k r = grind arith

-- The bit loop appends the bits of the run to the accumulator, if all fit 32 bits.
pub read_bits-eq :
    (bytes : List ℕ) (bit n m value : ℕ)
    → value < 2 ^ m
    → m + n ≤ 32
    → read_bits bytes bit n value ≡ value * 2 ^ n + bits_value (bit_at bytes) bit n
unfolding read_bits bits_value
read_bits-eq bytes bit zero m value hv le = omega arith
read_bits-eq bytes bit (suc n) m value hv le =
    let b = bit_at bytes bit in
    let step = shift_in 1 m value b hv (bit_at-lt bytes bit) (omega arith) in
    ap (λ x. read_bits bytes (bit + 1) n (bit_or (shl32 value 1) x)) (code_bit bytes bit)
    ∙ ap (read_bits bytes (bit + 1) n) step.0
    ∙ read_bits-eq bytes (bit + 1) n (m + 1) (value * 2 ^ 1 + b) step.1 (omega arith)
    ∙ regroup value b (2 ^ n) 2 (bits_value (bit_at bytes) (bit + 1) n)
    ∙ ap (λ (p : ℕ). value * p + (b * 2 ^ n + bits_value (bit_at bytes) (bit + 1) n))
        (sym (pow-suc' 2 n))

-- The byte loop appends the bits of the bytes to the accumulator, if all fit 32 bits.
pub read_bytes-eq :
    (bytes : List ℕ) (i n m value : ℕ)
    → AreBytes bytes
    → value < 2 ^ m
    → m + 8 * n ≤ 32
    → read_bytes bytes i n value ≡ value * 2 ^ (8 * n) + bits_value (bit_at bytes) (8 * i) (8 * n)
unfolding read_bytes bits_value
read_bytes-eq bytes i zero m value hb hv le = omega arith
read_bytes-eq bytes i (suc n) m value hb hv le =
    let b = get_or bytes i 0 in
    let step =
      shift_in 8 m value b hv (All-get_or IsByte bytes i 0 hb (omega arith)) (omega arith) in
    let rest = bits_value (bit_at bytes) (8 * i + 8) (8 * n) in
    ap (read_bytes bytes (i + 1) n) step.0
    ∙ read_bytes-eq bytes (i + 1) n (m + 8) (value * 2 ^ 8 + b) hb step.1 (omega arith)
    ∙ ap (λ o. (value * 2 ^ 8 + b) * 2 ^ (8 * n) + bits_value (bit_at bytes) o (8 * n))
        (omega arith)
    ∙ regroup value b (2 ^ (8 * n)) (2 ^ 8) rest
    ∙ ap₂ (λ p v. value * p + v) (sym (pow-add 8 (8 * n)))
        (ap (λ x. x * 2 ^ (8 * n) + rest) (sym (bits_value_byte bytes i hb))
          ∙ sym (bits_value-append (bit_at bytes) (8 * i) 8 (8 * n)))
    ∙ ap (λ k. value * 2 ^ k + bits_value (bit_at bytes) (8 * i) k) (omega arith)

read_bytes_aligned :
    (bytes : List ℕ) (off n : ℕ)
    → AreBytes bytes
    → n ≤ 32
    → off % 8 ≡ 0
    → n % 8 ≡ 0
    → read_bytes bytes (off / 8) (n / 8) 0 ≡ bits_value (bit_at bytes) off n
read_bytes_aligned bytes off n hb le eo en =
    let at : 8 * (off / 8) ≡ off = omega arith in
    let whole : 8 * (n / 8) ≡ n = omega arith in
    read_bytes-eq bytes (off / 8) (n / 8) 0 0 hb (omega arith) (omega arith)
    ∙ rw (at, whole) (omega arith)

-- Both paths read the number that the run of bits spells.
pub read_range-eq :
    (bytes : List ℕ) (off n : ℕ)
    → AreBytes bytes
    → n ≤ 32
    → read_range bytes off n ≡ bits_value (bit_at bytes) off n
unfolding read_range is_aligned
read_range-eq bytes off n hb le = ground (
  arith,
  read_bits-eq bytes off n 0 0 (omega arith) (omega arith),
  read_bytes_aligned bytes off n hb le,
)
