-- ===== src/Commands.antt =====
-- include/fleet/device_motor.h: the commands to a motor. A `config_set_code` is its byte, and
-- `milliseconds` is their count.
pub mod ConfigSetCode
use servo_fleet.Prelude.{ℕ, Bool}
use servo_fleet.Feedback.{Range, PidGains, ConfigQueryCode}
use servo_fleet.Floats.{ℤ}

pub data ReplyMode : Type 0 where
  none status1 position velocity : ReplyMode

pub record PvtCommand (F : Type 0) : Type 0 where
  pub device_id : ℕ
  pub gains : PidGains F
  pub position_r : F
  pub velocity_radps : F
  pub torque_ff_nm : F

pub record PositionCommand (F : Type 0) : Type 0 where
  pub device_id : ℕ
  pub position_deg : F
  pub velocity_limit_rpm : F
  pub current_limit : F
  pub reply : ReplyMode

pub record VelocityCommand (F : Type 0) : Type 0 where
  pub device_id : ℕ
  pub velocity_rpm : F
  pub current_limit : F
  pub reply : ReplyMode

pub record TorqueCommand (F : Type 0) : Type 0 where
  pub device_id : ℕ
  pub torque_nm : F
  pub reply : ReplyMode

pub record CurrentCommand (F : Type 0) : Type 0 where
  pub device_id : ℕ
  pub current : F
  pub reply : ReplyMode

-- `energy_brake` and `regen_brake` hold a current threshold, `engage_brake` whether to open.
pub data BrakeControl (F : Type 0) : Type 0 where
  damping_brake : BrakeControl F
  energy_brake regen_brake : F → BrakeControl F
  engage_brake : Bool → BrakeControl F

pub record BrakeCommand (F : Type 0) : Type 0 where
  pub device_id : ℕ
  pub control : BrakeControl F
  pub reply : ReplyMode

-- The alternatives of `config_set_value`. `D` is the type of doubles.
pub data ConfigSetValue (F D : Type 0) : Type 0 where
  float_value : F → ConfigSetValue F D
  u8_value : ℕ → ConfigSetValue F D
  double_value : D → ConfigSetValue F D
  u16_range_value : Range ℕ → ConfigSetValue F D
  float_range_value : Range F → ConfigSetValue F D
  milliseconds_value : ℤ → ConfigSetValue F D
  pid_value : PidGains F → ConfigSetValue F D

pub record ConfigSetCommand (F D : Type 0) : Type 0 where
  pub device_id : ℕ
  pub code : ℕ
  pub value : ConfigSetValue F D

pub record ConfigQueryCommand : Type 0 where
  pub device_id : ℕ
  pub code : ConfigQueryCode

-- The types of the concept `Command`.
pub data Command (F D : Type 0) : Type 0 where
  pvt_command : PvtCommand F → Command F D
  position_command : PositionCommand F → Command F D
  velocity_command : VelocityCommand F → Command F D
  torque_command : TorqueCommand F → Command F D
  current_command : CurrentCommand F → Command F D
  brake_command : BrakeCommand F → Command F D
  config_set_command : ConfigSetCommand F D → Command F D
  config_query_command : ConfigQueryCommand → Command F D
