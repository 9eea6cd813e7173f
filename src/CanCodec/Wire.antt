-- ===== src/CanCodec/Wire.antt =====
-- The wire format of the commands: how long the frame of a command is, and which bits of it hold
-- what, most significant bit first. The mode of a configuration is one byte behind the key.
use servo_fleet.Prelude.{ℕ, ◌==◌, ◌||◌, ◌<◌, ◌≡◌, if◌then◌else◌, List, [], ◌∷◌, leb}
use servo_fleet.Error.{FleetErr, Result, expected, unexpected, ◌>>=◌}
use servo_fleet.BitCodec.{Bits}
use servo_fleet.CanFrame.{CanFrame, CanAddr, valid}
use servo_fleet.Floats.{ℤ, pos, negsuc, literal, Floats, to_u16}
use servo_fleet.Commands.{
  BrakeControl, damping_brake, energy_brake, regen_brake, engage_brake, ReplyMode, ConfigSetValue,
  float_value, u8_value, double_value, u16_range_value, float_range_value, milliseconds_value,
  pid_value, Command, pvt_command, position_command, velocity_command, torque_command,
  current_command, brake_command, config_set_command, config_query_command,
}
use servo_fleet.Commands.ConfigSetCode
use servo_fleet.CanCodec.{init_frame, reply_u8, query_code_u8}
use servo_fleet.CanCodec.Checked.{
  uint16_max, checked_u16_scaled, checked_i16_scaled, checked_symmetric, checked_pvt_gain,
}
use servo_fleet.CanCodec.Making.{f32_to_bits, engaged_u8}
use servo_fleet.CanCodec.Configuring.{two_u16, two_i16}
use servo_fleet.CanCodec.Layout.{Written}

-- A field of `len` bits that starts at bit `offset`, and its value.
abbrev pub at : (offset len : ℕ) → ℕ → Bits × ℕ
at offset len value = (record { offset = offset; len = len }, value)

-- The low `bits` of the first byte are the number of the command, the bits behind it its operand.
abbrev pub config_head : ℕ → List (Bits × ℕ) → List (Bits × ℕ)
config_head code rest = at 0 3 6 ∷ at 8 8 code ∷ rest

abbrev pub config_value : ℕ → Result ℕ → Result (List (Bits × ℕ))
config_value code r = r >>= λ v. expected (config_head code (at 16 16 v ∷ []))

abbrev pub config_range : ℕ → Result (ℕ × ℕ) → Result (List (Bits × ℕ))
config_range code r = r >>= λ p. expected (config_head code (at 16 16 p.0 ∷ at 32 16 p.1 ∷ []))

abbrev pub refused : Result (List (Bits × ℕ))
refused = unexpected FleetErr.invalid_argument

-- A time of up to 65535 milliseconds.
unfoldable pub wire_timeout : ℕ → ℤ → Result (List (Bits × ℕ))
wire_timeout code (pos n) = if leb n 0xffff then config_value code (expected n) else refused
wire_timeout code (negsuc n) = refused

module _ (F : Type 0) ⦃fl : Floats F⦄ where
  -- Command 3, which carries a torque, a current or a brake's threshold in hundredths.
  unfoldable pub wire_torque : ℕ → F → ReplyMode → Result (List (Bits × ℕ))
  wire_torque mode value reply = do
    raw ← checked_i16_scaled F value (fl.narrow (fl.num (literal 100 0)))
    expected (at 0 3 3 ∷ at 3 3 mode ∷ at 6 2 (reply_u8 reply) ∷ at 8 16 (to_u16 raw) ∷ [])

  unfoldable pub wire_brake : BrakeControl F → ReplyMode → ℕ × Result (List (Bits × ℕ))
  unfolding wire_torque
  wire_brake damping_brake reply = (3, wire_torque 2 (fl.of_int (pos 0)) reply)
  wire_brake (energy_brake threshold) reply = (3, wire_torque 4 threshold reply)
  wire_brake (regen_brake threshold) reply = (3, wire_torque 4 threshold reply)
  wire_brake (engage_brake is_open) reply =
      (2, expected (at 0 3 4 ∷ at 3 5 0 ∷ at 8 8 (engaged_u8 is_open) ∷ []))

  -- Each code takes one type of value, and each value has a scale.
  unfoldable pub wire_config : ℕ → ConfigSetValue F fl.Double → ℕ × Result (List (Bits × ℕ))
  unfolding wire_timeout
  wire_config code (float_value v) = (
    4,
    if code == ConfigSetCode.accel
        then config_value code (checked_u16_scaled F v (fl.lit (literal 100 0)) uint16_max)
        else refused,
  )
  wire_config code (u8_value v) = (
    3,
    if code == ConfigSetCode.comm_mode
        then expected (config_head code (at 16 8 v ∷ []))
        else refused,
  )
  wire_config code (double_value v) = (
    4,
    if code == ConfigSetCode.torque_ratio
        then config_value code
            (checked_u16_scaled F (fl.narrow v) (fl.lit (literal 100 0)) uint16_max)
        else refused,
  )
  wire_config code (u16_range_value v) = (
    6,
    if code == ConfigSetCode.pvt_kp || code == ConfigSetCode.pvt_kd
        then config_range code (expected (v.min, v.max))
        else refused,
  )
  wire_config code (float_range_value v) = (
    6,
    if code == ConfigSetCode.pvt_kp || code == ConfigSetCode.pvt_kd
        then config_range code (two_u16 F v.min v.max 1 1)
        else if code == ConfigSetCode.pvt_position_limit_r
            || code == ConfigSetCode.pvt_velocity_limit_radps
        then config_range code (two_i16 F v.min v.max 100)
        else if code == ConfigSetCode.pvt_torque_limit_nm || code == ConfigSetCode.pvt_current_limit
        then config_range code (two_i16 F v.min v.max 10)
        else refused,
  )
  wire_config code (milliseconds_value v) =
      (4, if code == ConfigSetCode.can_timeout then wire_timeout code v else refused)
  wire_config code (pid_value v) = (
    6,
    if code == ConfigSetCode.current_loop_pi
        then config_range code (two_u16 F v.kp v.ki 10000 10)
        else if code == ConfigSetCode.velocity_loop_pi
        then config_range code (two_u16 F v.kp v.ki 100000 100000)
        else if code == ConfigSetCode.position_loop_pd
        then config_range code (two_u16 F v.kp v.kd 100000 100000)
        else refused,
  )

  -- The length of the frame, and its fields if every number of the command fits.
  unfoldable pub wire_of : Command F fl.Double → ℕ × Result (List (Bits × ℕ))
  unfolding wire_torque wire_brake wire_config
  wire_of (pvt_command c) = (
    8,
    do
      kp ← checked_pvt_gain F (fl.widen c.gains.kp) (fl.num (literal 500 0)) 4095
      kd ← checked_pvt_gain F (fl.widen c.gains.kd) (fl.num (literal 5 0)) 511
      position ← checked_symmetric F (fl.widen c.position_r) (fl.num (literal 125 1)) 32767 0xffff
      velocity ← checked_symmetric F (fl.widen c.velocity_radps) (fl.num (literal 18 0)) 2047 0xfff
      torque ← checked_symmetric F (fl.widen c.torque_ff_nm) (fl.num (literal 30 0)) 2047 0xfff
      expected (
          at 0 3 0
          ∷ at 3 12 kp
          ∷ at 15 9 kd
          ∷ at 24 16 position
          ∷ at 40 12 velocity
          ∷ at 52 12 torque
          ∷ []),
  )
  wire_of (position_command c) = (
    8,
    do
      velocity ← checked_u16_scaled F c.velocity_limit_rpm (fl.lit (literal 10 0)) 0x7fff
      current ← checked_u16_scaled F c.current_limit (fl.lit (literal 10 0)) 0xfff
      expected (
          at 0 3 1
          ∷ at 3 32 (f32_to_bits F (fl.widen c.position_deg))
          ∷ at 35 15 velocity
          ∷ at 50 12 current
          ∷ at 62 2 (reply_u8 c.reply)
          ∷ []),
  )
  wire_of (velocity_command c) = (
    7,
    do
      current ← checked_u16_scaled F c.current_limit (fl.lit (literal 10 0)) uint16_max
      expected (
          at 0 3 2
          ∷ at 3 3 0
          ∷ at 6 2 (reply_u8 c.reply)
          ∷ at 8 32 (f32_to_bits F (fl.widen c.velocity_rpm))
          ∷ at 40 16 current
          ∷ []),
  )
  wire_of (torque_command c) = (3, wire_torque 1 c.torque_nm c.reply)
  wire_of (current_command c) = (3, wire_torque 0 c.current c.reply)
  wire_of (brake_command c) = wire_brake c.control c.reply
  wire_of (config_set_command c) = wire_config c.code c.value
  wire_of (config_query_command c) = (2, expected (at 0 3 7 ∷ at 8 8 (query_code_u8 c.code) ∷ []))

-- What the C++ types say of a command: a `uint8_t` and a range of `uint16_t`.
abbrev pub IsConfigValue : {F D : Type 0} → ConfigSetValue F D → Type 0
IsConfigValue (float_value v) = Unit
IsConfigValue (u8_value v) = v < 256
IsConfigValue (double_value v) = Unit
IsConfigValue (u16_range_value v) = (v.min < 65536) × (v.max < 65536)
IsConfigValue (float_range_value v) = Unit
IsConfigValue (milliseconds_value v) = Unit
IsConfigValue (pid_value v) = Unit

abbrev pub IsCommand : {F D : Type 0} → Command F D → Type 0
IsCommand (config_set_command c) = IsConfigValue c.value
IsCommand _ = Unit

-- The outcome of `encode` agrees with the wire format: the error of a number that does not fit, or
-- a frame to the address with every field in its place.
abbrev pub Encodes :
    CanAddr → CanFrame → ℕ × Result (List (Bits × ℕ)) → FleetErr × CanFrame → Type 0
Encodes address frame (len, unexpected e) out = (out.0 ≡ e) × (e ≡ FleetErr.invalid_argument)
Encodes address frame (len, expected fields) out =
    Written fields (init_frame address len frame) out
    × (out.1.port ≡ address.can_port)
    × (out.1.id ≡ address.can_id)
    × (out.1.len ≡ len)
    × (valid out.1 ≡ leb address.can_id 0x7ff)
