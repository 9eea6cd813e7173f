-- ===== src/CanCodec/Encoding.antt =====
-- `encode` writes the frame of the wire format: all commands.
use servo_fleet.Prelude.{◌<◌, arith, true, false}
use servo_fleet.Floats.{Floats, IsFloats, pos}
use servo_fleet.Feedback.{ConfigQueryCode}
use servo_fleet.CanFrame.{CanFrame, CanAddr}
use servo_fleet.Commands.{
  Command, pvt_command, position_command, velocity_command, torque_command, current_command,
  brake_command, config_set_command, config_query_command, ReplyMode, BrakeControl, damping_brake,
  energy_brake, regen_brake, engage_brake,
}
use servo_fleet.CanCodec.{TorqueControlMode, init_frame, query_code_u8, torque_mode_u8}
use servo_fleet.CanCodec.Making.{
  make_pvt, make_position, make_velocity, make_torque, make_current, make_brake, make_config_query,
  encode_torque_control, encode_brake, engaged_u8,
}
use servo_fleet.CanCodec.Configuring.{make_config, encode}
use servo_fleet.CanCodec.Wire.{Encodes, IsCommand, wire_of, wire_torque, wire_brake}
use servo_fleet.CanCodec.Encoded.{
  Laid-Encodes, Passes-Encodes, pvt-Laid, position-Laid, velocity-Laid, torque-Laid,
}
use servo_fleet.CanCodec.EncodedConfig.{payload-Encodes}

query_code_u8-lt : (code : ConfigQueryCode) → query_code_u8 code < 256
unfolding query_code_u8
query_code_u8-lt code = ground arith

module _ (F : Type 0) ⦃fl : Floats F⦄ ⦃law : IsFloats F⦄ (address : CanAddr)
    (frame : CanFrame) where
  torque-Encodes :
      (mode : TorqueControlMode) (value : F) (reply : ReplyMode)
      → Encodes address frame
          (3, wire_torque F (torque_mode_u8 mode) value reply)
          (encode_torque_control F address mode value reply frame)
  unfolding wire_torque encode_torque_control
  torque-Encodes mode value reply =
      Passes-Encodes address frame 3 (wire_torque F (torque_mode_u8 mode) value reply) (omega arith)
        (torque-Laid F (torque_mode_u8 mode) value reply (unfold torque_mode_u8 in ground arith))

  brake-Encodes :
      (control : BrakeControl F) (reply : ReplyMode)
      → Encodes address frame
          (wire_brake F control reply)
          (encode_brake F address reply control (init_frame address 2 frame))
  unfolding wire_brake encode_brake init_frame torque_mode_u8 engaged_u8 wire_torque
      encode_torque_control
  brake-Encodes damping_brake reply =
      torque-Encodes TorqueControlMode.variable_damping_brake (fl.of_int (pos 0)) reply
  brake-Encodes (energy_brake threshold) reply =
      torque-Encodes TorqueControlMode.regenerative_brake threshold reply
  brake-Encodes (regen_brake threshold) reply =
      torque-Encodes TorqueControlMode.regenerative_brake threshold reply
  brake-Encodes (engage_brake true) reply =
      Laid-Encodes address frame 2 _ (omega arith) (omega arith)
  brake-Encodes (engage_brake false) reply =
      Laid-Encodes address frame 2 _ (omega arith) (omega arith)

-- For every command, `encode` returns `invalid_argument` if a number of the command, or the code of
-- a configuration, does not fit the wire format, and else writes a frame to the address, of the
-- length of that command, in which every field of the wire format reads back as its value and every
-- other field as in the empty frame; the frame is valid if the identifier has 11 bits.
pub encode_lem :
    (F : Type 0) ⦃fl : Floats F⦄ ⦃law : IsFloats F⦄ (address : CanAddr)
    (command : Command F fl.Double) (frame : CanFrame)
    → IsCommand command
    → Encodes address frame (wire_of F command) (encode F address command frame)
unfolding wire_of encode make_pvt make_position make_velocity make_torque make_current make_brake
    make_config_query make_config torque_mode_u8
encode_lem F address (pvt_command c) frame h =
    Passes-Encodes address frame 8 _ (omega arith) (pvt-Laid F c)
encode_lem F address (position_command c) frame h =
    Passes-Encodes address frame 8 _ (omega arith) (position-Laid F c)
encode_lem F address (velocity_command c) frame h =
    Passes-Encodes address frame 7 _ (omega arith) (velocity-Laid F c)
encode_lem F address (torque_command c) frame h =
    torque-Encodes F address frame TorqueControlMode.torque c.torque_nm c.reply
encode_lem F address (current_command c) frame h =
    torque-Encodes F address frame TorqueControlMode.current c.current c.reply
encode_lem F address (brake_command c) frame h = brake-Encodes F address frame c.control c.reply
encode_lem F address (config_set_command c) frame h =
    payload-Encodes F address frame c.code c.value h
encode_lem F address (config_query_command c) frame h =
    Laid-Encodes address frame 2 _ (omega arith) (omega (arith, query_code_u8-lt c.code))
