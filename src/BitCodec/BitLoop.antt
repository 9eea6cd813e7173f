-- ===== src/BitCodec/BitLoop.antt =====
-- What the bit loop of the field writes leaves in the buffer, in terms of its bits.
use native.Mathlib.Decide.{ℕ_discrete}
use servo_fleet.Prelude.{
  ℕ, zero, suc, ◌+◌, ◌-◌, ◌*◌, ◌/◌, ◌%◌, ◌≤◌, ◌<◌, ◌≡◌, refl, ap, ◌∙◌, sym, Bool, true, false, not,
  ◌&&◌, ◌==◌, ltb, if◌then◌else◌, ◌⊎◌, inl, List, length, get_or, set, length-set, get_or-set_self,
  get_or-set_ne, All-set, arith, All-get_or, bit_and, all_below, all_below_sound,
}
use servo_fleet.Words.{AreBytes, IsByte, shr}
use servo_fleet.Words.Digits.{bit_and_mask}
use servo_fleet.BitCodec.{put_bit, write_bits}
use servo_fleet.BitCodec.View.{bit_at, bit_of, bit_at_byte}

-- `out` is `bytes` with the bits from `lo` up to `hi` taken from `value`, whose lowest bit belongs
-- at `last - 1`.
pub record IsWritten (bytes out : List ℕ) (lo hi last value : ℕ) : Type 0 where
  pub same_length : length out ≡ length bytes
  pub are_bytes : AreBytes out
  pub inside : (k : ℕ) → lo ≤ k → k < hi → bit_at out k ≡ bit_of value (last - 1 - k)
  pub outside : (k : ℕ) → (k < lo) ⊎ (hi ≤ k) → bit_at out k ≡ bit_at bytes k

abbrev digit : Bool → ℕ
digit true = 1
digit false = 0

abbrev put_bit_holds : Bool → ℕ → ℕ → ℕ → Bool
put_bit_holds is_set byte bit t =
    ltb (put_bit byte bit is_set) 256
    && (bit_of (put_bit byte bit is_set) (7 - t)
        == (if t == bit then digit is_set else bit_of byte (7 - t)))

put_bit_table :
    (is_set : Bool)
    → all_below 256 (λ byte. all_below 8 (λ bit. all_below 8 (put_bit_holds is_set byte bit)))
      ≡ true
unfolding all_below put_bit
put_bit_table true = refl
put_bit_table false = refl

put_bit_lem :
    (is_set : Bool) (byte bit t : ℕ)
    → byte < 256
    → bit < 8
    → t < 8
    → (put_bit byte bit is_set < 256)
      × (bit_of (put_bit byte bit is_set) (7 - t)
          ≡ (if t == bit then digit is_set else bit_of byte (7 - t)))
put_bit_lem is_set byte bit t hb h ht = ground (arith, checked)
  where
    checked : put_bit_holds is_set byte bit t ≡ true
    checked =
        all_below_sound 8 _ t
          (all_below_sound 8 _ bit
            (all_below_sound 256 (λ b. all_below 8 (λ i. all_below 8 (put_bit_holds is_set b i)))
              byte (put_bit_table is_set) hb)
            h)
          ht

-- One bit stored into its byte.
abbrev stored : List ℕ → ℕ → Bool → List ℕ
stored bytes bit is_set = set bytes (bit / 8) (put_bit (get_or bytes (bit / 8) 0) (bit % 8) is_set)

stored-bit_at :
    (bytes : List ℕ) (bit k : ℕ) (is_set : Bool)
    → AreBytes bytes
    → bit < 8 * length bytes
    → bit_at (stored bytes bit is_set) k ≡ (if k == bit then digit is_set else bit_at bytes k)
unfolding bit_at
stored-bit_at bytes bit k is_set hb h = elim (ℕ_discrete (k / 8) (bit / 8)) [
  | yes e ↦ ground (
    arith,
    e,
    bit_at_byte bytes (bit / 8) k e,
    get_or-set_self bytes (bit / 8) new_byte 0 (omega arith),
    put_bit_lem is_set (get_or bytes (bit / 8) 0) (bit % 8) (k % 8)
        (All-get_or IsByte bytes (bit / 8) 0 hb (omega arith)),
  )
  | no n ↦ ground (arith, get_or-set_ne bytes (bit / 8) (k / 8) new_byte 0 (λ e. n (sym e)))
]
  where
    new_byte : ℕ
    new_byte = put_bit (get_or bytes (bit / 8) 0) (bit % 8) is_set

stored-AreBytes :
    (bytes : List ℕ) (bit : ℕ) (is_set : Bool) → AreBytes bytes → AreBytes (stored bytes bit is_set)
stored-AreBytes bytes bit is_set hb =
    All-set IsByte bytes (bit / 8) _ hb
      (put_bit_lem is_set (get_or bytes (bit / 8) 0) (bit % 8) 0
        (All-get_or IsByte bytes (bit / 8) 0 hb (omega arith)) (omega arith) (omega arith)).0

code_digit : (x : ℕ) → digit (not (bit_and x 1 == 0)) ≡ x % 2
code_digit x = ground (arith, bit_and_mask 1 x)

extend_bit :
    (bytes out : List ℕ) (bit hi last value : ℕ) (is_set : Bool)
    → AreBytes bytes
    → bit < 8 * length bytes
    → bit < hi
    → digit is_set ≡ bit_of value (last - 1 - bit)
    → IsWritten (stored bytes bit is_set) out (bit + 1) hi last value
    → IsWritten bytes out bit hi last value
extend_bit bytes out bit hi last value is_set hb h below here rest = record {
  same_length = rest.same_length ∙ length-set bytes (bit / 8) _;
  are_bytes = rest.are_bytes;
  inside = λ k p q. elim (ℕ_discrete k bit) [
    | yes e ↦ rest.outside k (inl (omega arith)) ∙ ground (arith, at k)
    | no n ↦ rest.inside k (omega arith) q
  ];
  outside = λ k p. rest.outside k (omega arith) ∙ ground (arith, at k);
}
  where
    at :
        (k : ℕ)
        → bit_at (stored bytes bit is_set) k ≡ (if k == bit then digit is_set else bit_at bytes k)
    at k = stored-bit_at bytes bit k is_set hb h

-- The bit loop writes the low bits of the value that are left, in their places.
pub write_bits-IsWritten :
    (off len value : ℕ) (bytes : List ℕ) (i n : ℕ)
    → AreBytes bytes
    → i + n ≡ len
    → off + len ≤ 8 * length bytes
    → IsWritten bytes (write_bits off len value bytes i n) (off + i) (off + len) (off + len) value
unfolding write_bits
write_bits-IsWritten off len value bytes i zero hb e fits = record {
  same_length = refl;
  are_bytes = hb;
  inside = λ k p q. absurd (omega arith);
  outside = λ k p. refl;
}
write_bits-IsWritten off len value bytes i (suc n) hb e fits =
    let is_set = not (bit_and (shr value (len - 1 - i)) 1 == 0) in
    let next : off + (i + 1) ≡ off + i + 1 = omega arith in
    extend_bit bytes _ (off + i) (off + len) (off + len) value is_set hb (omega arith) (omega arith)
      (code_digit (shr value (len - 1 - i)) ∙ ap (bit_of value) (omega arith))
      (rw next at (
        write_bits-IsWritten off len value (stored bytes (off + i) is_set) (i + 1) n
          (stored-AreBytes bytes (off + i) is_set hb) (omega arith)
          (rw
            (length-set bytes ((off + i) / 8)
              (put_bit (get_or bytes ((off + i) / 8) 0) ((off + i) % 8) is_set))
            fits)))
