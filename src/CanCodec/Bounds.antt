-- ===== src/CanCodec/Bounds.antt =====
-- What the checks of the numbers let through.
use servo_fleet.Prelude.{ℕ, ◌≤◌, ◌<◌, ◌^◌, ◌≡◌, arith}
use servo_fleet.Error.{FleetErr, Result, expected, unexpected, ◌>>=◌}
use servo_fleet.Floats.{Floats, IsFloats}
use servo_fleet.Floats.Whole.{to_u16-le}
use servo_fleet.CanCodec.Checked.{
  checked_u16_scaled, checked_i16_scaled, checked_symmetric, checked_pvt_gain, round_checked,
  double_of,
}

-- A value that passed has the property; a value that did not is an invalid argument.
abbrev pub Passes : {A : Type 0} → (A → Type 0) → Result A → Type 0
Passes P (expected a) = P a
Passes P (unexpected e) = e ≡ FleetErr.invalid_argument

pub Passes-bind :
    {A B : Type 0} (P : A → Type 0) (Q : B → Type 0) (r : Result A) (f : A → Result B)
    → Passes P r
    → ((a : A) → P a → Passes Q (f a))
    → Passes Q (r >>= f)
Passes-bind P Q (expected a) f h next = next a h
Passes-bind P Q (unexpected e) f h next = h

module _ (F : Type 0) ⦃fl : Floats F⦄ where
  round_checked_lem :
      (d : fl.Double) (max : ℕ) → max < 2 ^ 16 → Passes (λ n. n ≤ max) (round_checked F d max)
  unfolding round_checked
  round_checked_lem d max hm = ground (arith, to_u16-le (fl.llround d) max hm)

  -- `checked_symmetric` returns a number up to its maximum, if that has 16 bits, or an invalid
  -- argument, whatever the floats do.
  pub checked_symmetric_lem :
      (value range : fl.Double) (center max : ℕ)
      → max < 2 ^ 16
      → Passes (λ n. n ≤ max) (checked_symmetric F value range center max)
  unfolding checked_symmetric
  checked_symmetric_lem value range center max hm =
      let scaled =
        fl.dadd (fl.dmul (fl.ddiv value range) (double_of F center)) (double_of F center) in
      ground (arith, round_checked_lem scaled max hm)

  pub checked_pvt_gain_lem :
      (value max_value : fl.Double) (max_raw : ℕ)
      → max_raw < 2 ^ 16
      → Passes (λ n. n ≤ max_raw) (checked_pvt_gain F value max_value max_raw)
  unfolding checked_pvt_gain
  checked_pvt_gain_lem value max_value max_raw hm =
      let scaled = fl.dmul (fl.ddiv value max_value) (double_of F max_raw) in
      ground (arith, round_checked_lem scaled max_raw hm)

  -- `checked_u16_scaled` returns a number up to its maximum, if that has 16 bits, or an invalid
  -- argument.
  pub checked_u16_scaled_lem :
      ⦃law : IsFloats F⦄ (value scale : F) (max : ℕ)
      → max < 2 ^ 16
      → Passes (λ n. n ≤ max) (checked_u16_scaled F value scale max)
  unfolding checked_u16_scaled
  checked_u16_scaled_lem ⦃law⦄ value scale max hm =
      let scaled = fl.dmul (fl.widen value) (fl.widen scale) in
      ground (arith, law.truncate-le scaled max hm)

  pub checked_i16_scaled_lem :
      (value scale : F) → Passes (λ z. Unit {0}) (checked_i16_scaled F value scale)
  unfolding checked_i16_scaled
  checked_i16_scaled_lem value scale = ground arith
