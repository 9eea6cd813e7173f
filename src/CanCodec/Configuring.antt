-- ===== src/CanCodec/Configuring.antt =====
-- src/codec_can.cc: `make_config_value`, `make_config_range`, the overloads of
-- `encode_config_payload` and `make_config`; src/codec_can.h: `encode`. A value that is refused
-- before `init_frame` leaves the frame as it was.
use servo_fleet.Prelude.{ℕ, ◌==◌, ◌||◌, not, if◌then◌else◌, [], ◌∷◌, set}
use servo_fleet.Error.{FleetErr, Action, Result, expected, unexpected, ◌>>=◌, and_then}
use servo_fleet.CanFrame.{CanFrame, CanAddr}
use servo_fleet.Feedback.{Range, PidGains}
use servo_fleet.Floats.{ℤ, pos, ltb_int, literal, Floats, to_u16}
use servo_fleet.Commands.{
  ConfigSetCommand, ConfigSetValue, float_value, u8_value, double_value, u16_range_value,
  float_range_value, milliseconds_value, pid_value, Command, pvt_command, position_command,
  velocity_command, torque_command, current_command, brake_command, config_set_command,
  config_query_command,
}
use servo_fleet.Commands.ConfigSetCode
use servo_fleet.CanCodec.{init_frame, write_fields, motor_config}
use servo_fleet.CanCodec.CanField.Config
use servo_fleet.CanCodec.Checked.{uint16_max, checked_u16_scaled, checked_i16_scaled}
use servo_fleet.CanCodec.Making.{
  make_pvt, make_position, make_velocity, make_torque, make_current, make_brake, make_config_query,
}

unfoldable pub make_config_value : CanAddr → (code len value : ℕ) → Action CanFrame
unfolding init_frame write_fields
make_config_value address code len value frame =
    write_fields ((Config.mode, motor_config) ∷ (Config.key, code) ∷ (Config.value, value) ∷ [])
      (init_frame address len frame)

unfoldable pub make_config_range : CanAddr → (code min max : ℕ) → Action CanFrame
unfolding init_frame write_fields
make_config_range address code min max frame =
    write_fields
      ((Config.mode, motor_config)
        ∷ (Config.key, code)
        ∷ (Config.min, min)
        ∷ (Config.max, max)
        ∷ [])
      (init_frame address 6 frame)

-- Two checks, and then the range of the two numbers.
abbrev pub range_of : CanAddr → ℕ → Result (ℕ × ℕ) → Action CanFrame
range_of address code (unexpected e) frame = (e, frame)
range_of address code (expected (low, high)) frame = make_config_range address code low high frame

abbrev pub value_of : CanAddr → ℕ → Result ℕ → Action CanFrame
value_of address code (unexpected e) frame = (e, frame)
value_of address code (expected raw) frame = make_config_value address code 4 raw frame

unfoldable pub encode_mode : CanAddr → (code mode : ℕ) → Action CanFrame
unfolding init_frame write_fields
encode_mode address code mode frame =
    if not (code == ConfigSetCode.comm_mode)
    then (FleetErr.invalid_argument, frame)
    else and_then
        (write_fields ((Config.mode, motor_config) ∷ (Config.key, code) ∷ [])
          (init_frame address 3 frame))
        (λ f. (FleetErr.ok, record f { bytes = set f.bytes 2 mode }))

unfoldable pub encode_u16_range : CanAddr → ℕ → Range ℕ → Action CanFrame
unfolding make_config_range
encode_u16_range address code range frame =
    if code == ConfigSetCode.pvt_kp || code == ConfigSetCode.pvt_kd
    then make_config_range address code range.min range.max frame
    else (FleetErr.invalid_argument, frame)

unfoldable pub encode_timeout : CanAddr → ℕ → ℤ → Action CanFrame
unfolding make_config_value
encode_timeout address code timeout frame =
    if not (code == ConfigSetCode.can_timeout)
    then (FleetErr.invalid_argument, frame)
    else if ltb_int timeout (pos 0) || ltb_int (pos 0xffff) timeout
    then (FleetErr.invalid_argument, frame)
    else make_config_value address code 4 (to_u16 timeout) frame

module _ (F : Type 0) ⦃fl : Floats F⦄ where
  unfoldable pub encode_ratio : CanAddr → ℕ → fl.Double → Action CanFrame
  unfolding make_config_value checked_u16_scaled
  encode_ratio address code ratio frame =
      if not (code == ConfigSetCode.torque_ratio)
      then (FleetErr.invalid_argument, frame)
      else value_of address code
          (checked_u16_scaled F (fl.narrow ratio) (fl.lit (literal 100 0)) uint16_max) frame

  unfoldable pub encode_acceleration : CanAddr → ℕ → F → Action CanFrame
  unfolding make_config_value checked_u16_scaled
  encode_acceleration address code acceleration frame =
      if not (code == ConfigSetCode.accel)
      then (FleetErr.invalid_argument, frame)
      else value_of address code
          (checked_u16_scaled F acceleration (fl.lit (literal 100 0)) uint16_max) frame

  -- Two numbers, each with its scale.
  unfoldable pub two_u16 : (low high : F) → (low_scale high_scale : ℕ) → Result (ℕ × ℕ)
  unfolding checked_u16_scaled
  two_u16 low high low_scale high_scale = do
    minn ← checked_u16_scaled F low (fl.lit (literal low_scale 0)) uint16_max
    maxx ← checked_u16_scaled F high (fl.lit (literal high_scale 0)) uint16_max
    expected (minn, maxx)

  unfoldable pub two_i16 : (low high : F) → (scale : ℕ) → Result (ℕ × ℕ)
  unfolding checked_i16_scaled
  two_i16 low high scale = do
    minn ← checked_i16_scaled F low (fl.lit (literal scale 0))
    maxx ← checked_i16_scaled F high (fl.lit (literal scale 0))
    expected (to_u16 minn, to_u16 maxx)

  unfoldable pub encode_float_range : CanAddr → ℕ → Range F → Action CanFrame
  unfolding make_config_range two_u16 two_i16
  encode_float_range address code range frame =
      if code == ConfigSetCode.pvt_kp || code == ConfigSetCode.pvt_kd
      then range_of address code (two_u16 range.min range.max 1 1) frame
      else if code == ConfigSetCode.pvt_position_limit_r
          || code == ConfigSetCode.pvt_velocity_limit_radps
      then range_of address code (two_i16 range.min range.max 100) frame
      else if code == ConfigSetCode.pvt_torque_limit_nm || code == ConfigSetCode.pvt_current_limit
      then range_of address code (two_i16 range.min range.max 10) frame
      else (FleetErr.invalid_argument, frame)

  unfoldable pub encode_pid : CanAddr → ℕ → PidGains F → Action CanFrame
  unfolding make_config_range two_u16
  encode_pid address code gains frame =
      if code == ConfigSetCode.current_loop_pi
      then range_of address code (two_u16 gains.kp gains.ki 10000 10) frame
      else if code == ConfigSetCode.velocity_loop_pi
      then range_of address code (two_u16 gains.kp gains.ki 100000 100000) frame
      else if code == ConfigSetCode.position_loop_pd
      then range_of address code (two_u16 gains.kp gains.kd 100000 100000) frame
      else (FleetErr.invalid_argument, frame)

  -- The overload that the alternative of the variant selects.
  unfoldable pub encode_config_payload : CanAddr → ℕ → ConfigSetValue F fl.Double → Action CanFrame
  unfolding encode_mode encode_u16_range encode_timeout encode_ratio encode_acceleration
      encode_float_range encode_pid
  encode_config_payload address code (float_value v) frame =
      encode_acceleration address code v frame
  encode_config_payload address code (u8_value v) frame = encode_mode address code v frame
  encode_config_payload address code (double_value v) frame = encode_ratio address code v frame
  encode_config_payload address code (u16_range_value v) frame =
      encode_u16_range address code v frame
  encode_config_payload address code (float_range_value v) frame =
      encode_float_range address code v frame
  encode_config_payload address code (milliseconds_value v) frame =
      encode_timeout address code v frame
  encode_config_payload address code (pid_value v) frame = encode_pid address code v frame

  unfoldable pub make_config : CanAddr → ConfigSetCommand F fl.Double → Action CanFrame
  unfolding encode_config_payload
  make_config address cmd frame = encode_config_payload address cmd.code cmd.value frame

  unfoldable pub encode : CanAddr → Command F fl.Double → Action CanFrame
  unfolding make_pvt make_position make_velocity make_torque make_current make_brake make_config
      make_config_query
  encode address (pvt_command c) frame = make_pvt F address c frame
  encode address (position_command c) frame = make_position F address c frame
  encode address (velocity_command c) frame = make_velocity F address c frame
  encode address (torque_command c) frame = make_torque F address c frame
  encode address (current_command c) frame = make_current F address c frame
  encode address (brake_command c) frame = make_brake F address c frame
  encode address (config_set_command c) frame = make_config address c frame
  encode address (config_query_command c) frame = make_config_query address c frame
