-- ===== src/Device.antt =====
-- include/fleet/device_motor.h and src/device_motor.cc: what a motor remembers of its feedback, with
-- `sample_t` of include/fleet/device.h. A float is a value of a type `F`; its two products with a
-- constant are functions of it. A time is a number of ticks. The fields of the groups of the state
-- (`motion_`, `electrical_`, …) stand side by side.
pub mod Snapshot
pub mod Fragments
pub mod Ranges
mod Tests
use servo_fleet.Prelude.{
  ℕ, ◌+◌, ◌-◌, ◌*◌, ◌^◌, ◌%◌, ◌==◌, ltb, leb, ◌&&◌, ◌||◌, not, if◌then◌else◌, Bool, true, false,
  List, replicate, copy_into, bit_or, bit_and,
}
use servo_fleet.Words.{u8, shl}
use servo_fleet.Feedback.{
  MotorErr, Range, PidGains, VersionInfo, McuUuidFragment, McuUuid, ConfigQueryCode, StatusFeedback,
  PositionFeedback, VelocityFeedback, QueryFeedback, BrakeStatusFeedback, Feedback, status_feedback,
  position_feedback, velocity_feedback, config_ack_feedback, query_feedback, brake_status_feedback,
}

unfoldable pub complete : McuUuid → Bool
complete uuid = bit_and uuid.received_mask 7 == 7

pub record Sample (T : Type 0) : Type 0 where
  pub time : ℕ
  pub seq : ℕ
  pub value : T

unfoldable pub received : {T : Type 0} → Sample T → Bool
received s = not (s.seq == 0)

-- `now - time <= max_age`, on times that may lie on either side of each other.
unfoldable pub fresh : {T : Type 0} → Sample T → ℕ → ℕ → Bool
fresh s now max_age = received s && leb now (s.time + max_age)

pub record MotorDevice (F : Type 0) : Type 0 where
  pub sample_seq : ℕ
  pub updated_at : ℕ
  pub motor_error : Sample MotorErr
  pub position_deg : Sample F
  pub velocity_rpm : Sample F
  pub current : Sample F
  pub power : Sample F
  pub acceleration_radps2 : Sample F
  pub motor_temp_c : Sample F
  pub mosfet_temp_c : Sample F
  pub flux_observer_gain : Sample F
  pub disturbance_compensation_coeff : Sample F
  pub feedback_compensation_coeff : Sample F
  pub damping_coeff : Sample F
  pub torque_ratio : Sample F
  pub pvt_kp_range : Sample (Range F)
  pub pvt_kd_range : Sample (Range F)
  pub pvt_position_limit_r : Sample (Range F)
  pub pvt_velocity_limit_radps : Sample (Range F)
  pub pvt_torque_limit_nm : Sample (Range F)
  pub pvt_current_limit : Sample (Range F)
  pub version : Sample VersionInfo
  pub can_timeout : Sample ℕ
  pub current_loop_pi : Sample (PidGains F)
  pub velocity_loop_pi : Sample (PidGains F)
  pub position_loop_pd : Sample (PidGains F)
  pub mcu_uuid : Sample McuUuid
  pub status : Sample Bool

abbrev pub set_sample : {T : Type 0} → T → ℕ → ℕ → Sample T
set_sample value time seq = record { time = time; seq = seq; value = value }

-- A device without feedback, whose floats are `zero_float`.
abbrev pub new_device : {F : Type 0} → F → MotorDevice F
new_device zero_float = record {
  sample_seq = 0;
  updated_at = 0;
  motor_error = set_sample MotorErr.none 0 0;
  position_deg = set_sample zero_float 0 0;
  velocity_rpm = set_sample zero_float 0 0;
  current = set_sample zero_float 0 0;
  power = set_sample zero_float 0 0;
  acceleration_radps2 = set_sample zero_float 0 0;
  motor_temp_c = set_sample zero_float 0 0;
  mosfet_temp_c = set_sample zero_float 0 0;
  flux_observer_gain = set_sample zero_float 0 0;
  disturbance_compensation_coeff = set_sample zero_float 0 0;
  feedback_compensation_coeff = set_sample zero_float 0 0;
  damping_coeff = set_sample zero_float 0 0;
  torque_ratio = set_sample zero_float 0 0;
  pvt_kp_range = set_sample (record { min = zero_float; max = zero_float }) 0 0;
  pvt_kd_range = set_sample (record { min = zero_float; max = zero_float }) 0 0;
  pvt_position_limit_r = set_sample (record { min = zero_float; max = zero_float }) 0 0;
  pvt_velocity_limit_radps = set_sample (record { min = zero_float; max = zero_float }) 0 0;
  pvt_torque_limit_nm = set_sample (record { min = zero_float; max = zero_float }) 0 0;
  pvt_current_limit = set_sample (record { min = zero_float; max = zero_float }) 0 0;
  version =
      set_sample
        (record {
          hw_major = 0;
          hw_minor = 0;
          hw_patch = 0;
          fw_major = 0;
          fw_minor = 0;
          fw_patch = 0;
        })
        0 0;
  can_timeout = set_sample 0 0 0;
  current_loop_pi = set_sample (record { kp = zero_float; kd = zero_float; ki = zero_float }) 0 0;
  velocity_loop_pi = set_sample (record { kp = zero_float; kd = zero_float; ki = zero_float }) 0 0;
  position_loop_pd = set_sample (record { kp = zero_float; kd = zero_float; ki = zero_float }) 0 0;
  mcu_uuid = set_sample (record { bytes = replicate 12 0; received_mask = 0 }) 0 0;
  status = set_sample false 0 0;
}

unfoldable pub set_mcu_uuid_fragment : Sample McuUuid → McuUuidFragment → ℕ → ℕ → Sample McuUuid
set_mcu_uuid_fragment sample fragment time seq =
    let uuid = sample.value in
    let offset = (fragment.index - 1) * 4 in
    if ltb fragment.index 1 || ltb 3 fragment.index
    then sample
    else set_sample
        (record {
          bytes = copy_into uuid.bytes offset fragment.bytes;
          received_mask = bit_or uuid.received_mask (u8 (shl 1 (fragment.index - 1)));
        })
        time seq

-- The switch of the query feedback.
unfoldable pub apply_query :
    {F : Type 0} → ConfigQueryCode → QueryFeedback F → ℕ → ℕ → MotorDevice F → MotorDevice F
apply_query ConfigQueryCode.position v now seq d = record d {
  position_deg = set_sample v.position_deg now seq;
}
apply_query ConfigQueryCode.velocity v now seq d = record d {
  velocity_rpm = set_sample v.velocity_rpm now seq;
}
apply_query ConfigQueryCode.current v now seq d = record d {
  current = set_sample v.current now seq;
}
apply_query ConfigQueryCode.power v now seq d = record d { power = set_sample v.power now seq }
apply_query ConfigQueryCode.acceleration v now seq d = record d {
  acceleration_radps2 = set_sample v.acceleration_radps2 now seq;
}
apply_query ConfigQueryCode.flux_observer_gain v now seq d = record d {
  flux_observer_gain = set_sample v.flux_observer_gain now seq;
}
apply_query ConfigQueryCode.disturbance_compensation_coeff v now seq d = record d {
  disturbance_compensation_coeff = set_sample v.disturbance_compensation_coeff now seq;
}
apply_query ConfigQueryCode.feedback_compensation_coeff v now seq d = record d {
  feedback_compensation_coeff = set_sample v.feedback_compensation_coeff now seq;
}
apply_query ConfigQueryCode.damping_coeff v now seq d = record d {
  damping_coeff = set_sample v.damping_coeff now seq;
}
apply_query ConfigQueryCode.torque_ratio v now seq d = record d {
  torque_ratio = set_sample v.torque_ratio now seq;
}
apply_query ConfigQueryCode.pvt_kp_range v now seq d = record d {
  pvt_kp_range = set_sample v.pvt_kp_range now seq;
}
apply_query ConfigQueryCode.pvt_kd_range v now seq d = record d {
  pvt_kd_range = set_sample v.pvt_kd_range now seq;
}
apply_query ConfigQueryCode.pvt_position_limit_r v now seq d = record d {
  pvt_position_limit_r = set_sample v.pvt_position_limit_r now seq;
}
apply_query ConfigQueryCode.pvt_velocity_limit_radps v now seq d = record d {
  pvt_velocity_limit_radps = set_sample v.pvt_velocity_limit_radps now seq;
}
apply_query ConfigQueryCode.pvt_torque_limit_nm v now seq d = record d {
  pvt_torque_limit_nm = set_sample v.pvt_torque_limit_nm now seq;
}
apply_query ConfigQueryCode.pvt_current_limit v now seq d = record d {
  pvt_current_limit = set_sample v.pvt_current_limit now seq;
}
apply_query ConfigQueryCode.mcu_uuid v now seq d = record d {
  mcu_uuid = set_mcu_uuid_fragment d.mcu_uuid v.mcu_uuid_fragment now seq;
}
apply_query ConfigQueryCode.version v now seq d = record d {
  version = set_sample v.version now seq;
}
apply_query ConfigQueryCode.can_timeout v now seq d = record d {
  can_timeout = set_sample v.can_timeout now seq;
}
apply_query ConfigQueryCode.current_loop_pi v now seq d = record d {
  current_loop_pi = set_sample v.current_loop_pi now seq;
}
apply_query ConfigQueryCode.velocity_loop_pi v now seq d = record d {
  velocity_loop_pi = set_sample v.velocity_loop_pi now seq;
}
apply_query ConfigQueryCode.position_loop_pd v now seq d = record d {
  position_loop_pd = set_sample v.position_loop_pd now seq;
}
apply_query ConfigQueryCode.brake_status v now seq d = record d {
  status = set_sample v.brake_status now seq;
}

module _ {F : Type 0} (rad_to_deg radps_to_rpm : F → F) where
  unfoldable pub apply_feedback_value : Feedback F → ℕ → ℕ → MotorDevice F → MotorDevice F
  apply_feedback_value (status_feedback v) now seq d = record d {
    motor_error = set_sample v.error now seq;
    position_deg = set_sample (rad_to_deg v.position_r) now seq;
    velocity_rpm = set_sample (radps_to_rpm v.velocity_radps) now seq;
    current = set_sample v.current now seq;
    motor_temp_c = set_sample v.motor_temp_c now seq;
    mosfet_temp_c = set_sample v.mosfet_temp_c now seq;
    updated_at = now;
  }
  apply_feedback_value (position_feedback v) now seq d = record d {
    motor_error = set_sample v.error now seq;
    position_deg = set_sample v.position now seq;
    current = set_sample v.current now seq;
    motor_temp_c = set_sample v.motor_temp_c now seq;
    updated_at = now;
  }
  apply_feedback_value (velocity_feedback v) now seq d = record d {
    motor_error = set_sample v.error now seq;
    velocity_rpm = set_sample v.velocity now seq;
    current = set_sample v.current now seq;
    motor_temp_c = set_sample v.motor_temp_c now seq;
    updated_at = now;
  }
  apply_feedback_value (config_ack_feedback v) now seq d = d
  apply_feedback_value (query_feedback v) now seq d =
      let queried =
        apply_query v.code v now seq (record d { motor_error = set_sample v.error now seq }) in
      record queried { updated_at = now }
  apply_feedback_value (brake_status_feedback v) now seq d = record d {
    motor_error = set_sample v.error now seq;
    status = set_sample v.engaged now seq;
    updated_at = now;
  }

  -- `apply`, whose result is whether the feedback is no acknowledgement.
  unfoldable pub apply : MotorDevice F → Feedback F → ℕ → Bool × MotorDevice F
  apply d response now =
      let seq = (d.sample_seq + 1) % 2 ^ 64 in
      let applied = apply_feedback_value response now seq (record d { sample_seq = seq }) in
      (elim response [ config_ack_feedback v ↦ false | _ ↦ true ], applied)

pub record PvtFeedbackSnapshot (F : Type 0) : Type 0 where
  pub error : Sample MotorErr
  pub position_deg : Sample F
  pub velocity_rpm : Sample F
  pub current : Sample F

unfoldable pub pvt_feedback : {F : Type 0} → MotorDevice F → PvtFeedbackSnapshot F
pvt_feedback d = record {
  error = d.motor_error;
  position_deg = d.position_deg;
  velocity_rpm = d.velocity_rpm;
  current = d.current;
}

unfoldable pub all_received : {F : Type 0} → PvtFeedbackSnapshot F → Bool
all_received s =
    received s.error && received s.position_deg && received s.velocity_rpm && received s.current

unfoldable pub coherent : {F : Type 0} → PvtFeedbackSnapshot F → Bool
coherent s =
    all_received s
    && s.error.seq == s.position_deg.seq
    && s.error.seq == s.velocity_rpm.seq
    && s.error.seq == s.current.seq
    && s.error.time == s.position_deg.time
    && s.error.time == s.velocity_rpm.time
    && s.error.time == s.current.time

unfoldable pub snapshot_fresh : {F : Type 0} → PvtFeedbackSnapshot F → ℕ → ℕ → Bool
snapshot_fresh s now max_age = coherent s && fresh s.error now max_age
