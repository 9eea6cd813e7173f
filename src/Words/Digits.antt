-- ===== src/Words/Digits.antt =====
-- `&`, `|` and `^` digit by digit, and `|` and `&` with fields and masks as arithmetic.
use Prim.Native.Nat.{
  min, max, digits, bitwise, differ, bit_and-bitwise, bit_or-bitwise, bit_xor-bitwise,
}
use native.Mathlib.Nat.{le_refl, pow-suc, one-le-pow, div-add-mod', mod-lt}
use servo_fleet.Prelude.{
  ℕ, zero, suc, ◌+◌, ◌-◌, ◌*◌, ◌/◌, ◌%◌, ◌^◌, ◌≤◌, ◌<◌, ◌≡◌, refl, ap, bit_and, bit_or, bit_xor,
  arith,
}

-- An operation is known by `z`, what it gives for 0 on the left, and by `f`, on digits.
module _ (z : ℕ → ℕ) (f : ℕ → ℕ → ℕ) where
  rounds_enough : (x y k l : ℕ) → x ≤ k → x ≤ l → digits z f k x y ≡ digits z f l x y
  rounds_enough zero y zero zero hk hl = refl
  rounds_enough zero y zero (suc l) hk hl = refl
  rounds_enough zero y (suc k) zero hk hl = refl
  rounds_enough zero y (suc k) (suc l) hk hl = refl
  rounds_enough (suc x) y zero l hk hl = absurd (omega arith)
  rounds_enough (suc x) y (suc k) zero hk hl = absurd (omega arith)
  rounds_enough (suc x) y (suc k) (suc l) hk hl =
      let half = rounds_enough (suc x / 2) (y / 2) k l (omega arith) (omega arith) in rw half

  low_digit :
      ((y : ℕ) → z y ≡ z (y / 2) * 2 + f 0 (y % 2))
      → (x y : ℕ) → bitwise z f x y ≡ bitwise z f (x / 2) (y / 2) * 2 + f (x % 2) (y % 2)
  low_digit zeros zero y = zeros y
  low_digit zeros (suc x) y =
      let shorter = rounds_enough (suc x / 2) (y / 2) x (suc x / 2) in
      omega (arith, shorter (omega arith) (omega arith))

pub bit_and_step : (x y : ℕ) → bit_and x y ≡ bit_and (x / 2) (y / 2) * 2 + min (x % 2) (y % 2)
bit_and_step x y = simp bit_and-bitwise (low_digit (λ v. 0) min (λ v. omega arith) x y)

pub bit_or_step : (x y : ℕ) → bit_or x y ≡ bit_or (x / 2) (y / 2) * 2 + max (x % 2) (y % 2)
bit_or_step x y = simp bit_or-bitwise (low_digit (λ v. v) max (λ v. omega arith) x y)

differ_digits : (x y : ℕ) → x < 2 → y < 2 → differ x y ≡ (x + y) % 2
differ_digits zero y p q = omega arith
differ_digits (suc zero) zero p q = refl
differ_digits (suc zero) (suc zero) p q = refl
differ_digits (suc zero) (suc (suc y)) p q = absurd (omega arith)
differ_digits (suc (suc x)) y p q = absurd (omega arith)

bit_xor-differ : (x y : ℕ) → bit_xor x y ≡ bit_xor (x / 2) (y / 2) * 2 + differ (x % 2) (y % 2)
bit_xor-differ x y = simp bit_xor-bitwise (
    low_digit (λ v. v) differ
      (λ v. omega (arith, differ_digits 0 (v % 2) (omega arith) (omega arith))) x y)

pub bit_xor_step : (a b : ℕ) → bit_xor a b ≡ bit_xor (a / 2) (b / 2) * 2 + (a + b) % 2
bit_xor_step a b =
    omega (arith, bit_xor-differ a b, differ_digits (a % 2) (b % 2) (omega arith) (omega arith))

bit_or-zero_below : (n a : ℕ) → a ≤ n → bit_or a 0 ≡ a
bit_or-zero_below n zero h = refl
bit_or-zero_below zero (suc a) h = absurd (omega arith)
bit_or-zero_below (suc n) (suc a) h =
    omega (arith, bit_or_step (suc a) 0, bit_or-zero_below n (suc a / 2) (omega arith))

bit_and-zero_below : (n a : ℕ) → a ≤ n → bit_and a 0 ≡ 0
bit_and-zero_below n zero h = refl
bit_and-zero_below zero (suc a) h = absurd (omega arith)
bit_and-zero_below (suc n) (suc a) h =
    omega (arith, bit_and_step (suc a) 0, bit_and-zero_below n (suc a / 2) (omega arith))

pub bit_and-zero : (a : ℕ) → bit_and a 0 ≡ 0
bit_and-zero a = bit_and-zero_below a a (le_refl _)

or_comm_below : (n a b : ℕ) → a + b ≤ n → bit_or a b ≡ bit_or b a
or_comm_below n zero zero h = refl
or_comm_below zero (suc a) b h = absurd (omega arith)
or_comm_below zero zero (suc b) h = absurd (omega arith)
or_comm_below (suc n) a b h =
    omega (arith, bit_or_step a b, bit_or_step b a, or_comm_below n (a / 2) (b / 2) (omega arith))

pub bit_or_comm : (a b : ℕ) → bit_or a b ≡ bit_or b a
bit_or_comm a b = or_comm_below (a + b) a b (le_refl _)

pub double_pow : (m e : ℕ) → m * 2 ^ suc e ≡ 2 * (m * 2 ^ e)
double_pow m e = omega (arith, ap (◌*◌ m) (pow-suc 2 e))

-- `(q << k) | r` is a sum when `r` fits `k` bits.
pub bit_or_fields : (k q r : ℕ) → r < 2 ^ k → bit_or (q * 2 ^ k) r ≡ q * 2 ^ k + r
bit_or_fields zero q r fits = ground (arith, bit_or-zero_below q q (le_refl _))
bit_or_fields (suc k) q r fits = ground (
  arith,
  bit_or_step (q * 2 ^ suc k) r,
  double_pow q k,
  bit_or_fields k q (r / 2) (omega (arith, pow-suc 2 k)),
)

-- `&` of a number with fields split at bit `k`.
pub bit_and_fields :
    (k q r p s : ℕ)
    → r < 2 ^ k
    → s < 2 ^ k
    → bit_and (q * 2 ^ k + r) (p * 2 ^ k + s) ≡ bit_and q p * 2 ^ k + bit_and r s
bit_and_fields zero q r p s fr fs = ground (arith, bit_and-zero 0)
bit_and_fields (suc k) q r p s fr fs = ground (
  arith,
  double_pow q k,
  double_pow p k,
  double_pow (bit_and q p) k,
  bit_and_step (q * 2 ^ suc k + r) (p * 2 ^ suc k + s),
  bit_and_step r s,
  bit_and_fields k q (r / 2) p (s / 2) (omega (arith, pow-suc 2 k)) (omega (arith, pow-suc 2 k)),
)

bit_and_ones : (k r : ℕ) → r < 2 ^ k → bit_and r (2 ^ k - 1) ≡ r
bit_and_ones zero r h = ground (arith, bit_and-zero r)
bit_and_ones (suc k) r h = ground (
  arith,
  bit_and_step r (2 ^ suc k - 1),
  pow-suc 2 k,
  one-le-pow k 2,
  bit_and_ones k (r / 2) (omega (arith, pow-suc 2 k)),
)

-- A mask of `k` low bits is the remainder by `2 ^ k`.
pub bit_and_mask : (k a : ℕ) → bit_and a (2 ^ k - 1) ≡ a % 2 ^ k
bit_and_mask k a = ground (
  arith,
  one-le-pow k 2,
  div-add-mod' a (2 ^ k),
  mod-lt a {m = 2 ^ k} (one-le-pow k 2 (omega arith)),
  bit_and-zero (a / 2 ^ k),
  bit_and_fields k (a / 2 ^ k) (a % 2 ^ k) 0 (2 ^ k - 1),
  bit_and_ones k (a % 2 ^ k),
)
