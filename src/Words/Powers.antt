-- ===== src/Words/Powers.antt =====
-- Shifts and masks by a variable count.
use native.Mathlib.Nat.{
  pow-suc, one-le-pow, div-add-mod', mod-lt, mod-eq_of_lt, mul-add-mod_self_right,
  div-div-eq-div-mul, pow-le-pow_right,
}
use servo_fleet.Prelude.{ℕ, zero, suc, ◌+◌, ◌*◌, ◌/◌, ◌%◌, ◌^◌, ◌≤◌, ◌<◌, ◌≡◌, ◌∙◌, ap, sym, arith}

pub pow_pos : (n : ℕ) → 0 < 2 ^ n
pow_pos n = one-le-pow n 2 (omega arith)

pub pow-add : (a b : ℕ) → 2 ^ (a + b) ≡ 2 ^ a * 2 ^ b
pow-add a zero = ground arith
pow-add a (suc b) =
    ap (λ n. 2 ^ n) (omega arith)
    ∙ pow-suc 2 (a + b)
    ∙ omega (arith, pow-add a b, ap (λ (t : ℕ). 2 ^ a * t) (pow-suc 2 b))

pub div-pow-add : (x a b : ℕ) → x / 2 ^ a / 2 ^ b ≡ x / 2 ^ (a + b)
div-pow-add x a b = div-div-eq-div-mul x (2 ^ a) (2 ^ b) ∙ ap (λ (m : ℕ). x / m) (sym (pow-add a b))

pub lt-pow_mono : (x : ℕ) {m n : ℕ} → x < 2 ^ m → m ≤ n → x < 2 ^ n
lt-pow_mono x h le = omega (arith, pow-le-pow_right {n = 2} (omega arith) le)

-- `q * (2 * m) + r` leaves `r`, whatever `q` is.
mod_of_parts : (x q r m : ℕ) → x ≡ q * m + r → r < m → x % m ≡ r
mod_of_parts x q r m e h = ap (λ y. y % m) e ∙ mul-add-mod_self_right q m r ∙ mod-eq_of_lt h

-- The top bit of a remainder.
pub mod_top_bit : (x n : ℕ) → x % 2 ^ suc n ≡ x / 2 ^ n % 2 * 2 ^ n + x % 2 ^ n
mod_top_bit x n = mod_of_parts x (x / 2 ^ n / 2) _ (2 ^ suc n) whole small
  where
    whole : x ≡ x / 2 ^ n / 2 * 2 ^ suc n + (x / 2 ^ n % 2 * 2 ^ n + x % 2 ^ n)
    whole = omega (
      arith,
      div-add-mod' x (2 ^ n),
      ap (λ (y : ℕ). x / 2 ^ n / 2 * y) (pow-suc 2 n),
      ap (λ (y : ℕ). y * 2 ^ n) (div-add-mod' (x / 2 ^ n) 2),
    )

    small : x / 2 ^ n % 2 * 2 ^ n + x % 2 ^ n < 2 ^ suc n
    small =
        grind (arith, pow-suc 2 n, mod-lt x (pow_pos n), mod-lt (x / 2 ^ n) {m = 2} (omega arith))
