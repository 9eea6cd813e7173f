-- ===== src/CanCodec/Making.antt =====
-- src/codec_can.cc: `make_pvt` to `make_brake` and `make_config_query`. A value that is refused ends
-- the call before a field is written.
use servo_fleet.Prelude.{ℕ, true, false, [], ◌∷◌, Bool}
use servo_fleet.Error.{Action, expected, ◌>>=◌}
use servo_fleet.CanFrame.{CanFrame, CanAddr}
use servo_fleet.Floats.{pos, literal, Floats, to_u16}
use servo_fleet.Commands.{
  ReplyMode, PvtCommand, PositionCommand, VelocityCommand, TorqueCommand, CurrentCommand,
  BrakeCommand, BrakeControl, damping_brake, energy_brake, regen_brake, engage_brake,
  ConfigQueryCommand,
}
use servo_fleet.CanCodec.{
  TorqueControlMode, init_frame, write_fields, write_checked, reply_u8, torque_mode_u8,
  query_code_u8, pvt_control, position_control, velocity_control, torque_control, brake_control,
  motor_config_query,
}
use servo_fleet.CanCodec.CanField.Pvt
use servo_fleet.CanCodec.CanField.PositionControl
use servo_fleet.CanCodec.CanField.VelocityControl
use servo_fleet.CanCodec.CanField.TorqueControl
use servo_fleet.CanCodec.CanField.BrakeControl
use servo_fleet.CanCodec.CanField.ConfigQuery
use servo_fleet.CanCodec.Checked.{
  uint16_max, checked_u16_scaled, checked_i16_scaled, checked_symmetric, checked_pvt_gain,
}

unfoldable pub engaged_u8 : Bool → ℕ
engaged_u8 true = 1
engaged_u8 false = 0

unfoldable pub make_config_query : CanAddr → ConfigQueryCommand → Action CanFrame
unfolding init_frame write_fields query_code_u8
make_config_query address command frame =
    write_fields
      ((ConfigQuery.mode, motor_config_query) ∷ (ConfigQuery.key, query_code_u8 command.code) ∷ [])
      (init_frame address 2 frame)

module _ (F : Type 0) ⦃fl : Floats F⦄ where
  unfoldable pub make_pvt : CanAddr → PvtCommand F → Action CanFrame
  unfolding init_frame write_fields checked_symmetric checked_pvt_gain
  make_pvt address command frame =
      write_checked
        (do
          kp ← checked_pvt_gain F (fl.widen command.gains.kp) (fl.num (literal 500 0)) 4095
          kd ← checked_pvt_gain F (fl.widen command.gains.kd) (fl.num (literal 5 0)) 511
          position ←
              checked_symmetric F (fl.widen command.position_r) (fl.num (literal 125 1)) 32767
                0xffff
          velocity ←
              checked_symmetric F (fl.widen command.velocity_radps) (fl.num (literal 18 0)) 2047
                0xfff
          torque ←
              checked_symmetric F (fl.widen command.torque_ff_nm) (fl.num (literal 30 0)) 2047 0xfff
          expected (
              (Pvt.mode, pvt_control)
              ∷ (Pvt.kp, kp)
              ∷ (Pvt.kd, kd)
              ∷ (Pvt.position, position)
              ∷ (Pvt.velocity, velocity)
              ∷ (Pvt.torque, torque)
              ∷ []))
        (init_frame address 8 frame)

  -- `f32_to_bits`, whose argument is a double.
  unfoldable pub f32_to_bits : fl.Double → ℕ
  f32_to_bits v = fl.bits_of_f32 (fl.narrow v)

  unfoldable pub make_position : CanAddr → PositionCommand F → Action CanFrame
  unfolding init_frame write_fields checked_u16_scaled reply_u8 f32_to_bits
  make_position address cmd frame =
      write_checked
        (do
          velocity_limit ←
              checked_u16_scaled F cmd.velocity_limit_rpm (fl.lit (literal 10 0)) 0x7fff
          current_limit ← checked_u16_scaled F cmd.current_limit (fl.lit (literal 10 0)) 0xfff
          expected (
              (PositionControl.mode, position_control)
              ∷ (PositionControl.position_deg, f32_to_bits (fl.widen cmd.position_deg))
              ∷ (PositionControl.velocity_rpm_x10, velocity_limit)
              ∷ (PositionControl.current_amp_x10, current_limit)
              ∷ (PositionControl.reply, reply_u8 cmd.reply)
              ∷ []))
        (init_frame address 8 frame)

  unfoldable pub make_velocity : CanAddr → VelocityCommand F → Action CanFrame
  unfolding init_frame write_fields checked_u16_scaled reply_u8 f32_to_bits
  make_velocity address cmd frame =
      write_checked
        (do
          current_limit ← checked_u16_scaled F cmd.current_limit (fl.lit (literal 10 0)) uint16_max
          expected (
              (VelocityControl.mode, velocity_control)
              ∷ (VelocityControl.reserved, 0)
              ∷ (VelocityControl.reply, reply_u8 cmd.reply)
              ∷ (VelocityControl.rpm, f32_to_bits (fl.widen cmd.velocity_rpm))
              ∷ (VelocityControl.current_amp_x10, current_limit)
              ∷ []))
        (init_frame address 7 frame)

  -- The scale is a double that is cast to a float.
  unfoldable pub encode_torque_control :
      CanAddr → TorqueControlMode → F → ReplyMode → Action CanFrame
  unfolding init_frame write_fields checked_i16_scaled reply_u8 torque_mode_u8
  encode_torque_control address code value reply frame =
      write_checked
        (do
          raw ← checked_i16_scaled F value (fl.narrow (fl.num (literal 100 0)))
          expected (
              (TorqueControl.mode, torque_control)
              ∷ (TorqueControl.state, torque_mode_u8 code)
              ∷ (TorqueControl.reply, reply_u8 reply)
              ∷ (TorqueControl.value, to_u16 raw)
              ∷ []))
        (init_frame address 3 frame)

  unfoldable pub make_torque : CanAddr → TorqueCommand F → Action CanFrame
  unfolding encode_torque_control
  make_torque address cmd frame =
      encode_torque_control address TorqueControlMode.torque cmd.torque_nm cmd.reply frame

  unfoldable pub make_current : CanAddr → CurrentCommand F → Action CanFrame
  unfolding encode_torque_control
  make_current address cmd frame =
      encode_torque_control address TorqueControlMode.current cmd.current cmd.reply frame

  -- The visitor of the alternatives of `brake_control`.
  unfoldable pub encode_brake : CanAddr → ReplyMode → BrakeControl F → Action CanFrame
  unfolding encode_torque_control write_fields engaged_u8
  encode_brake address reply damping_brake frame =
      encode_torque_control address TorqueControlMode.variable_damping_brake (fl.of_int (pos 0))
        reply frame
  encode_brake address reply (energy_brake current_threshold) frame =
      encode_torque_control address TorqueControlMode.regenerative_brake current_threshold reply
        frame
  encode_brake address reply (regen_brake current_threshold) frame =
      encode_torque_control address TorqueControlMode.regenerative_brake current_threshold reply
        frame
  encode_brake address reply (engage_brake open_brake) frame =
      write_fields
        ((BrakeControl.mode, brake_control)
          ∷ (BrakeControl.reserved, 0)
          ∷ (BrakeControl.engaged, engaged_u8 open_brake)
          ∷ [])
        frame

  unfoldable pub make_brake : CanAddr → BrakeCommand F → Action CanFrame
  unfolding init_frame encode_brake
  make_brake address cmd frame =
      encode_brake address cmd.reply cmd.control (init_frame address 2 frame)
