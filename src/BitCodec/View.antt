-- ===== src/BitCodec/View.antt =====
-- The abstract view of a buffer: its bits, the most significant bit of byte 0 first, and the number
-- that a run of bits spells.
use servo_fleet.Prelude.{
  ℕ, zero, suc, ◌+◌, ◌-◌, ◌*◌, ◌/◌, ◌%◌, ◌^◌, ◌≤◌, ◌<◌, ◌≡◌, refl, ap, ◌∙◌, List, get_or, arith,
  All-get_or, ap₂, sym,
}
use servo_fleet.Words.{AreBytes, IsByte}
use servo_fleet.Words.Powers.{mod_top_bit, pow-add}
use native.Mathlib.Nat.{pow-suc, mod-eq_of_lt}

-- Bit `s` of a number, counted from the low end.
abbrev pub bit_of : ℕ → ℕ → ℕ
bit_of value s = value / 2 ^ s % 2

unfoldable pub bit_at : List ℕ → ℕ → ℕ
bit_at bytes k = bit_of (get_or bytes (k / 8) 0) (7 - k % 8)

unfoldable pub bits_value : (ℕ → ℕ) → ℕ → ℕ → ℕ
bits_value f off zero = 0
bits_value f off (suc n) = f off * 2 ^ n + bits_value f (off + 1) n

pub bit_at-lt : (bytes : List ℕ) (k : ℕ) → bit_at bytes k < 2
unfolding bit_at
bit_at-lt bytes k = omega arith

pub bits_value-lt : (f : ℕ → ℕ) → ((k : ℕ) → f k < 2) → (off n : ℕ) → bits_value f off n < 2 ^ n
unfolding bits_value
bits_value-lt f small off zero = omega arith
bits_value-lt f small off (suc n) =
    grind (arith, pow-suc 2 n, small off, bits_value-lt f small (off + 1) n)

pub bits_value_ext :
    (f g : ℕ → ℕ) (off n : ℕ)
    → ((k : ℕ) → off ≤ k → k < off + n → f k ≡ g k)
    → bits_value f off n ≡ bits_value g off n
unfolding bits_value
bits_value_ext f g off zero h = refl
bits_value_ext f g off (suc n) h =
    ap₂ (λ b v. b * 2 ^ n + v) (h off (omega arith) (omega arith))
      (bits_value_ext f g (off + 1) n (λ k p q. h k (omega arith) (omega arith)))

-- Bits taken from a number spell its remainder.
pub bits_value-bit_of :
    (f : ℕ → ℕ) (value off n : ℕ)
    → ((k : ℕ) → off ≤ k → k < off + n → f k ≡ bit_of value (off + n - 1 - k))
    → bits_value f off n ≡ value % 2 ^ n
unfolding bits_value
bits_value-bit_of f value off zero h = omega arith
bits_value-bit_of f value off (suc n) h =
    ap₂ (λ b v. b * 2 ^ n + v) (h off (omega arith) (omega arith) ∙ ap (bit_of value) (omega arith))
      (bits_value-bit_of f value (off + 1) n
        (λ k p q. h k (omega arith) (omega arith) ∙ ap (bit_of value) (omega arith)))
    ∙ sym (mod_top_bit value n)

pub bits_value-append :
    (f : ℕ → ℕ) (off a b : ℕ)
    → bits_value f off (a + b) ≡ bits_value f off a * 2 ^ b + bits_value f (off + a) b
unfolding bits_value
bits_value-append f off zero b =
    let none_left : 0 + b ≡ b = omega arith in
    let no_shift : off + 0 ≡ off = omega arith in rw (none_left, no_shift) (omega arith)
bits_value-append f off (suc a) b =
    ap (bits_value f off) {y = suc (a + b)} (omega arith)
    ∙ ap₂ (λ p v. f off * p + v) (pow-add a b) (bits_value-append f (off + 1) a b)
    ∙ regroup (f off) (2 ^ a) (2 ^ b) (bits_value f (off + 1) a) (bits_value f (off + 1 + a) b)
    ∙ ap (λ o. (f off * 2 ^ a + bits_value f (off + 1) a) * 2 ^ b + bits_value f o b) (omega arith)
  where
    regroup : (x p q u v : ℕ) → x * (p * q) + (u * q + v) ≡ (x * p + u) * q + v
    regroup x p q u v = grind arith

pub bit_at_byte :
    (bytes : List ℕ) (i k : ℕ) → k / 8 ≡ i → bit_at bytes k ≡ bit_of (get_or bytes i 0) (7 - k % 8)
unfolding bit_at
bit_at_byte bytes i k e = ap (λ j. bit_of (get_or bytes j 0) (7 - k % 8)) e

-- The eight bits of a byte spell it.
pub bits_value_byte :
    (bytes : List ℕ) (i : ℕ)
    → AreBytes bytes
    → bits_value (bit_at bytes) (8 * i) 8 ≡ get_or bytes i 0
bits_value_byte bytes i h =
    bits_value-bit_of (bit_at bytes) (get_or bytes i 0) (8 * i) 8
      (λ k p q. bit_at_byte bytes i k (omega arith) ∙ ap (bit_of (get_or bytes i 0)) (omega arith))
    ∙ mod-eq_of_lt (All-get_or IsByte bytes i 0 h (omega arith))
