-- ===== src/CanCodec/Checked.antt =====
-- src/codec_can.cc: the numbers that go into a frame, which are refused if they do not fit.
-- A result that is returned through a reference is the `Result`'s value.
use servo_fleet.Prelude.{ℕ, ◌^◌, Bool, ◌||◌, not, if◌then◌else◌}
use servo_fleet.Error.{FleetErr, Result, expected, unexpected}
use servo_fleet.Floats.{ℤ, pos, ltb_int, to_u16, literal, neg_literal, Floats}

abbrev pub uint16_max : ℕ
uint16_max = 0xffff

module _ (F : Type 0) ⦃fl : Floats F⦄ where
  -- The literal 0.0 is a double, and so is a number that is cast to one.
  abbrev pub double_of : ℕ → fl.Double
  double_of n = fl.num (literal n 0)

  unfoldable pub checked_u16_scaled : F → F → ℕ → Result ℕ
  checked_u16_scaled value scale max =
      let scaled = fl.dmul (fl.widen value) (fl.widen scale) in
      let rounded = fl.round scaled in
      if not (fl.isfinite scaled)
      then unexpected FleetErr.invalid_argument
      else if fl.dlt rounded (double_of 0) || fl.dlt (double_of max) rounded
      then unexpected FleetErr.invalid_argument
      else expected (to_u16 (fl.truncate rounded))

  unfoldable pub checked_i16_scaled : F → F → Result ℤ
  checked_i16_scaled value scale =
      let scaled = fl.dmul (fl.widen value) (fl.widen scale) in
      let rounded = fl.round scaled in
      if not (fl.isfinite scaled)
      then unexpected FleetErr.invalid_argument
      else if fl.dlt rounded (fl.num (neg_literal 0x8000 0)) || fl.dlt (double_of 0x7fff) rounded
      then unexpected FleetErr.invalid_argument
      else expected (fl.truncate rounded)

  -- What the two functions below do with the scaled value: a `long long` has 64 bits.
  unfoldable pub round_checked : fl.Double → ℕ → Result ℕ
  round_checked scaled_value max =
      let scaled = fl.llround scaled_value in
      if fl.dlt scaled_value (fl.num (neg_literal (2 ^ 63) 0))
        || fl.dlt (double_of 0x7fff_ffff_ffff_ffff) scaled_value
      then unexpected FleetErr.invalid_argument
      else if ltb_int scaled (pos 0) || ltb_int (pos max) scaled
      then unexpected FleetErr.invalid_argument
      else expected (to_u16 scaled)

  -- A finite number that is not above 0 is `<= 0.0`.
  unfoldable pub not_scalable : fl.Double → fl.Double → Bool
  not_scalable value range =
      not (fl.isfinite value) || not (fl.isfinite range) || not (fl.dlt (double_of 0) range)

  unfoldable pub checked_symmetric : fl.Double → fl.Double → ℕ → ℕ → Result ℕ
  unfolding round_checked not_scalable
  checked_symmetric value range center max =
      if not_scalable value range
      then unexpected FleetErr.invalid_argument
      else round_checked
          (fl.dadd (fl.dmul (fl.ddiv value range) (double_of center)) (double_of center)) max

  unfoldable pub checked_pvt_gain : fl.Double → fl.Double → ℕ → Result ℕ
  unfolding round_checked not_scalable
  checked_pvt_gain value max_value max_raw =
      if not_scalable value max_value
      then unexpected FleetErr.invalid_argument
      else round_checked (fl.dmul (fl.ddiv value max_value) (double_of max_raw)) max_raw
