-- ===== src/BitCodec/Writing.antt =====
-- What the byte loop and the aligned writes of the fields leave in the buffer, in terms of its bits.
use native.Mathlib.Decide.{ℕ_discrete}
use servo_fleet.Prelude.{
  ℕ, zero, suc, ◌+◌, ◌-◌, ◌*◌, ◌/◌, ◌%◌, ◌≤◌, ◌<◌, ◌≡◌, refl, ap, ◌∙◌, sym, subst, Bool-cases, true,
  false, ◌&&◌, ◌==◌, ◌≢◌, inl, inr, List, length, set, length-set, get_or-set_self, get_or-set_ne,
  All-set, arith,
}
use servo_fleet.Words.{AreBytes, IsByte, u8, u32, shr}
use servo_fleet.Words.Powers.{div-pow-add}
use servo_fleet.BitCodec.{write_bits, write_bytes, write_range, is_aligned}
use servo_fleet.BitCodec.View.{bit_at, bit_of, bit_at_byte}
use servo_fleet.BitCodec.BitLoop.{IsWritten, write_bits-IsWritten}

-- Bits below the eighth survive the cast to a byte.
bit_of_byte : (x t : ℕ) → t < 8 → bit_of (u8 x) t ≡ bit_of x t
bit_of_byte x zero h = omega arith
bit_of_byte x (suc zero) h = omega arith
bit_of_byte x (suc (suc zero)) h = omega arith
bit_of_byte x (suc (suc (suc zero))) h = omega arith
bit_of_byte x (suc (suc (suc (suc zero)))) h = omega arith
bit_of_byte x (suc (suc (suc (suc (suc zero))))) h = omega arith
bit_of_byte x (suc (suc (suc (suc (suc (suc zero)))))) h = omega arith
bit_of_byte x (suc (suc (suc (suc (suc (suc (suc zero))))))) h = omega arith
bit_of_byte x (suc (suc (suc (suc (suc (suc (suc (suc t)))))))) h = absurd (omega arith)

extend_byte :
    (bytes out : List ℕ) (at hi last value shift : ℕ)
    → AreBytes bytes
    → at < length bytes
    → 8 * (at + 1) + shift ≡ last
    → 8 * (at + 1) ≤ hi
    → IsWritten (set bytes at (u8 (shr value shift))) out (8 * (at + 1)) hi last value
    → IsWritten bytes out (8 * at) hi last value
unfolding bit_at
extend_byte bytes out at hi last value shift hb h place le rest = record {
  same_length = rest.same_length ∙ length-set bytes at _;
  are_bytes = rest.are_bytes;
  inside = λ k p q. elim (ℕ_discrete (k / 8) at) [
    | yes e ↦ rest.outside k (omega arith) ∙ written k e
    | no n ↦ rest.inside k (omega arith) q
  ];
  outside = λ k p. rest.outside k (omega arith) ∙ kept k (omega arith);
}
  where
    kept : (k : ℕ) → k / 8 ≢ at → bit_at (set bytes at (u8 (shr value shift))) k ≡ bit_at bytes k
    kept k n = ap (λ b. bit_of b (7 - k % 8)) (get_or-set_ne bytes at (k / 8) _ 0 (λ e. n (sym e)))

    written :
        (k : ℕ)
        → k / 8 ≡ at
        → bit_at (set bytes at (u8 (shr value shift))) k ≡ bit_of value (last - 1 - k)
    written k e =
        bit_at_byte _ at k e
        ∙ ap (λ b. bit_of b (7 - k % 8)) (get_or-set_self bytes at _ 0 h)
        ∙ bit_of_byte (shr value shift) (7 - k % 8) (omega arith)
        ∙ ap (λ x. x % 2) (div-pow-add value shift (7 - k % 8))
        ∙ ap (bit_of value) (omega arith)

-- The byte loop writes the bytes of the value that are left, in their places.
pub write_bytes-IsWritten :
    (at len value : ℕ) (bytes : List ℕ) (i n : ℕ)
    → AreBytes bytes
    → 8 * (i + n) ≡ len
    → len ≤ 32
    → 8 * at + len ≤ 8 * length bytes
    → IsWritten bytes
        (write_bytes at len value bytes i n)
        (8 * (at + i))
        (8 * at + len)
        (8 * at + len)
        value
unfolding write_bytes
write_bytes-IsWritten at len value bytes i zero hb e small fits = record {
  same_length = refl;
  are_bytes = hb;
  inside = λ k p q. absurd (omega arith);
  outside = λ k p. refl;
}
write_bytes-IsWritten at len value bytes i (suc n) hb e small fits =
    let next : at + (i + 1) ≡ at + i + 1 = omega arith in
    let byte = u8 (shr value (u32 (len - 8 - i * 8))) in
    extend_byte bytes _ (at + i) (8 * at + len) (8 * at + len) value (u32 (len - 8 - i * 8)) hb
      (omega arith) (omega arith) (omega arith)
      (rw next at (
        write_bytes-IsWritten at len value (set bytes (at + i) byte) (i + 1) n
          (All-set IsByte bytes (at + i) byte hb (omega arith)) (omega arith) small
          (rw (length-set bytes (at + i) byte) fits)))

write_bytes_aligned :
    (bytes : List ℕ) (off len value : ℕ)
    → AreBytes bytes
    → len ≤ 32
    → off + len ≤ 8 * length bytes
    → off % 8 ≡ 0
    → len % 8 ≡ 0
    → IsWritten bytes
        (write_bytes (off / 8) len value bytes 0 (len / 8))
        off
        (off + len)
        (off + len)
        value
write_bytes_aligned bytes off len value hb small fits eo en =
    let first : 8 * (off / 8 + 0) ≡ off = omega arith in
    let at : 8 * (off / 8) ≡ off = omega arith in
    rw (first, at) at
      (write_bytes-IsWritten (off / 8) len value bytes 0 (len / 8) hb (omega arith) small
        (omega arith))

write_bits_whole :
    (bytes : List ℕ) (off len value : ℕ)
    → AreBytes bytes
    → off + len ≤ 8 * length bytes
    → IsWritten bytes (write_bits off len value bytes 0 len) off (off + len) (off + len) value
write_bits_whole bytes off len value hb fits =
    let first : off + 0 ≡ off = omega arith in
    rw first at (write_bits-IsWritten off len value bytes 0 len hb (omega arith) fits)

-- Both paths write the field and nothing else.
pub write_range-IsWritten :
    (bytes : List ℕ) (off len value : ℕ)
    → AreBytes bytes
    → len ≤ 32
    → off + len ≤ 8 * length bytes
    → IsWritten bytes (write_range bytes off len value) off (off + len) (off + len) value
write_range-IsWritten bytes off len value hb small fits =
    elim (Bool-cases (off % 8 == 0 && len % 8 == 0)) [
      | inl e ↦
          subst (λ out. IsWritten bytes out off (off + len) (off + len) value) (aligned e)
            (write_bytes_aligned bytes off len value hb small fits (ground arith) (ground arith))
      | inr e ↦
          subst (λ out. IsWritten bytes out off (off + len) (off + len) value) (unaligned e)
            (write_bits_whole bytes off len value hb fits)
    ]
  where
    aligned :
        (off % 8 == 0 && len % 8 == 0) ≡ true
        → write_bytes (off / 8) len value bytes 0 (len / 8) ≡ write_range bytes off len value
    aligned e = unfold write_range is_aligned in rw e refl

    unaligned :
        (off % 8 == 0 && len % 8 == 0) ≡ false
        → write_bits off len value bytes 0 len ≡ write_range bytes off len value
    unaligned e = unfold write_range is_aligned in rw e refl
