-- ===== src/CanCodec.antt =====
-- src/codec_can.cc and src/codec_can.h: the commands and the feedback of a motor in the data of a CAN
-- frame. A `can_frame &` is passed and returned. What a frame is written into keeps its first `len`
-- bytes as the buffer of the field, so the bytes behind it stay.
pub mod CanField
pub mod Checked
pub mod Making
pub mod Configuring
pub mod Layout
pub mod Bounds
pub mod Wire
pub mod Encoded
pub mod EncodedConfig
pub mod Encoding
pub mod Querying
pub mod Parsing
pub mod Replies
pub mod ReplyValues
pub mod Replying
pub mod Answers
pub mod Failures
pub mod Examples
mod Tests
use servo_fleet.Prelude.{ℕ, List, [], ◌∷◌, ◌++◌, drop}
use servo_fleet.Error.{FleetErr, Result, expected, unexpected, Action, and_then}
use servo_fleet.BitCodec.{Bits, read, write}
use servo_fleet.CanFrame.{CanFrame, CanAddr, empty_frame, as_bytes_view}
use servo_fleet.Commands.{ReplyMode}
use servo_fleet.Feedback.{ConfigQueryCode}

-- Nothing of the frame passed is kept.
unfoldable pub init_frame : CanAddr → ℕ → CanFrame → CanFrame
init_frame address len frame = record empty_frame {
  port = address.can_port;
  id = address.can_id;
  len = len;
}

-- `read<Field>(frame)`.
unfoldable pub read_field : Bits → CanFrame → Result ℕ
read_field f frame = read f (as_bytes_view frame)

-- The frame once the bytes that `as_bytes_mut` gives are `bytes`.
abbrev pub with_bytes : CanFrame → FleetErr × List ℕ → FleetErr × CanFrame
with_bytes frame (e, bytes) = (e, record frame { bytes = bytes ++ drop frame.len frame.bytes })

-- `write<Field>(frame, raw)`.
unfoldable pub write_field : Bits → ℕ → Action CanFrame
write_field f raw frame = with_bytes frame (write f raw (as_bytes_view frame))

-- A chain of `if (auto e = write<Field>(frame, raw)) return e;`.
unfoldable pub write_fields : List (Bits × ℕ) → Action CanFrame
write_fields [] frame = (FleetErr.ok, frame)
write_fields ((f, raw) ∷ rest) frame = and_then (write_field f raw frame) (write_fields rest)

-- The fields are written if their values passed the checks.
abbrev pub write_checked : Result (List (Bits × ℕ)) → Action CanFrame
write_checked (unexpected e) frame = (e, frame)
write_checked (expected fields) frame = write_fields fields frame

-- `enum_u8` of the enumerations.
unfoldable pub reply_u8 : ReplyMode → ℕ
reply_u8 ReplyMode.none = 0
reply_u8 ReplyMode.status1 = 1
reply_u8 ReplyMode.position = 2
reply_u8 ReplyMode.velocity = 3

abbrev pub pvt_control : ℕ
pvt_control = 0

abbrev pub position_control : ℕ
position_control = 1

abbrev pub velocity_control : ℕ
velocity_control = 2

abbrev pub torque_control : ℕ
torque_control = 3

abbrev pub brake_control : ℕ
brake_control = 4

abbrev pub motor_config : ℕ
motor_config = 6

abbrev pub motor_config_query : ℕ
motor_config_query = 7

pub data TorqueControlMode : Type 0 where
  current torque variable_damping_brake rheostatic_brake regenerative_brake electromagnetic_brake :
      TorqueControlMode

unfoldable pub torque_mode_u8 : TorqueControlMode → ℕ
torque_mode_u8 TorqueControlMode.current = 0
torque_mode_u8 TorqueControlMode.torque = 1
torque_mode_u8 TorqueControlMode.variable_damping_brake = 2
torque_mode_u8 TorqueControlMode.rheostatic_brake = 3
torque_mode_u8 TorqueControlMode.regenerative_brake = 4
torque_mode_u8 TorqueControlMode.electromagnetic_brake = 5

unfoldable pub query_code_u8 : ConfigQueryCode → ℕ
query_code_u8 ConfigQueryCode.position = 1
query_code_u8 ConfigQueryCode.velocity = 2
query_code_u8 ConfigQueryCode.current = 3
query_code_u8 ConfigQueryCode.power = 4
query_code_u8 ConfigQueryCode.acceleration = 5
query_code_u8 ConfigQueryCode.flux_observer_gain = 6
query_code_u8 ConfigQueryCode.disturbance_compensation_coeff = 7
query_code_u8 ConfigQueryCode.feedback_compensation_coeff = 8
query_code_u8 ConfigQueryCode.damping_coeff = 9
query_code_u8 ConfigQueryCode.torque_ratio = 22
query_code_u8 ConfigQueryCode.pvt_kp_range = 23
query_code_u8 ConfigQueryCode.pvt_kd_range = 24
query_code_u8 ConfigQueryCode.pvt_position_limit_r = 25
query_code_u8 ConfigQueryCode.pvt_velocity_limit_radps = 26
query_code_u8 ConfigQueryCode.pvt_torque_limit_nm = 27
query_code_u8 ConfigQueryCode.pvt_current_limit = 28
query_code_u8 ConfigQueryCode.mcu_uuid = 29
query_code_u8 ConfigQueryCode.version = 30
query_code_u8 ConfigQueryCode.can_timeout = 31
query_code_u8 ConfigQueryCode.current_loop_pi = 32
query_code_u8 ConfigQueryCode.velocity_loop_pi = 33
query_code_u8 ConfigQueryCode.position_loop_pd = 34
query_code_u8 ConfigQueryCode.brake_status = 37
