-- ===== src/CanCodec/Examples.antt =====
-- An address, a command, a reply and a new `query_feedback`, with whole numbers for floats.
use servo_fleet.Prelude.{false, [], ◌∷◌}
use servo_fleet.CanFrame.{CanFrame, CanAddr}
use servo_fleet.Floats.{ℤ, pos}
use servo_fleet.Feedback.{MotorErr, Range, PidGains, QueryFeedback, ConfigQueryCode}
use servo_fleet.Commands.{Command, ReplyMode, position_command}

abbrev pub motor : CanAddr
motor = record { can_port = 1; can_id = 5 }

abbrev pub whole_command : Command ℤ ℤ
whole_command = position_command (record {
  device_id = 0;
  position_deg = pos 90;
  velocity_limit_rpm = pos 100;
  current_limit = pos 7;
  reply = ReplyMode.status1;
})

abbrev pub status_frame : CanFrame
status_frame = record {
  port = 1;
  id = 5;
  extended = false;
  bytes = 0x21 ∷ 0x80 ∷ 0 ∷ 0x80 ∷ 8 ∷ 0 ∷ 100 ∷ 110 ∷ [];
  len = 8;
}

abbrev no_range : Range ℤ
no_range = record { min = pos 0; max = pos 0 }

abbrev no_gains : PidGains ℤ
no_gains = record { kp = pos 0; kd = pos 0; ki = pos 0 }

abbrev pub blank : QueryFeedback ℤ
blank = record {
  error = MotorErr.none;
  code = ConfigQueryCode.position;
  position_deg = pos 0;
  velocity_rpm = pos 0;
  current = pos 0;
  power = pos 0;
  acceleration_radps2 = pos 0;
  flux_observer_gain = pos 0;
  disturbance_compensation_coeff = pos 0;
  feedback_compensation_coeff = pos 0;
  damping_coeff = pos 0;
  torque_ratio = pos 0;
  pvt_kp_range = no_range;
  pvt_kd_range = no_range;
  pvt_position_limit_r = no_range;
  pvt_velocity_limit_radps = no_range;
  pvt_torque_limit_nm = no_range;
  pvt_current_limit = no_range;
  mcu_uuid_fragment = record { index = 0; bytes = 0 ∷ 0 ∷ 0 ∷ 0 ∷ [] };
  version = record {
    hw_major = 0;
    hw_minor = 0;
    hw_patch = 0;
    fw_major = 0;
    fw_minor = 0;
    fw_patch = 0;
  };
  can_timeout = 0;
  current_loop_pi = no_gains;
  velocity_loop_pi = no_gains;
  position_loop_pd = no_gains;
  brake_status = false;
}
