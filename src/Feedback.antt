-- ===== src/Feedback.antt =====
-- The values that a motor reports: the types of include/fleet/device_motor.h and the feedback structs
-- of src/codec_can.h. A float is a value of a type `F`.
use servo_fleet.Prelude.{ℕ, Bool, List}

pub data MotorErr : Type 0 where
  none over_temp over_current over_voltage under_voltage encoder_fail brake_over_voltage driver comm
        unknown :
      MotorErr

pub record Range (F : Type 0) : Type 0 where
  pub min : F
  pub max : F

pub record PidGains (F : Type 0) : Type 0 where
  pub kp : F
  pub kd : F
  pub ki : F

pub record VersionInfo : Type 0 where
  pub hw_major : ℕ
  pub hw_minor : ℕ
  pub hw_patch : ℕ
  pub fw_major : ℕ
  pub fw_minor : ℕ
  pub fw_patch : ℕ

pub record McuUuidFragment : Type 0 where
  pub index : ℕ
  pub bytes : List ℕ

pub record McuUuid : Type 0 where
  pub bytes : List ℕ
  pub received_mask : ℕ

pub data ConfigQueryCode : Type 0 where
  position velocity current power acceleration flux_observer_gain disturbance_compensation_coeff
        feedback_compensation_coeff damping_coeff torque_ratio pvt_kp_range pvt_kd_range
        pvt_position_limit_r pvt_velocity_limit_radps pvt_torque_limit_nm pvt_current_limit mcu_uuid
        version can_timeout current_loop_pi velocity_loop_pi position_loop_pd brake_status :
      ConfigQueryCode

pub record StatusFeedback (F : Type 0) : Type 0 where
  pub error : MotorErr
  pub position_r : F
  pub velocity_radps : F
  pub current : F
  pub motor_temp_c : F
  pub mosfet_temp_c : F

pub record PositionFeedback (F : Type 0) : Type 0 where
  pub error : MotorErr
  pub position : F
  pub current : F
  pub motor_temp_c : F

pub record VelocityFeedback (F : Type 0) : Type 0 where
  pub error : MotorErr
  pub velocity : F
  pub current : F
  pub motor_temp_c : F

pub record QueryFeedback (F : Type 0) : Type 0 where
  pub error : MotorErr
  pub code : ConfigQueryCode
  pub position_deg : F
  pub velocity_rpm : F
  pub current : F
  pub power : F
  pub acceleration_radps2 : F
  pub flux_observer_gain : F
  pub disturbance_compensation_coeff : F
  pub feedback_compensation_coeff : F
  pub damping_coeff : F
  pub torque_ratio : F
  pub pvt_kp_range : Range F
  pub pvt_kd_range : Range F
  pub pvt_position_limit_r : Range F
  pub pvt_velocity_limit_radps : Range F
  pub pvt_torque_limit_nm : Range F
  pub pvt_current_limit : Range F
  pub mcu_uuid_fragment : McuUuidFragment
  pub version : VersionInfo
  pub can_timeout : ℕ
  pub current_loop_pi : PidGains F
  pub velocity_loop_pi : PidGains F
  pub position_loop_pd : PidGains F
  pub brake_status : Bool

pub record BrakeStatusFeedback : Type 0 where
  pub error : MotorErr
  pub engaged : Bool

-- `code` is a `config_set_code`, which the code casts from any byte.
pub record ConfigAckFeedback : Type 0 where
  pub error : MotorErr
  pub code : ℕ
  pub accepted : Bool

-- The alternatives of `feedback`.
pub data Feedback (F : Type 0) : Type 0 where
  status_feedback : StatusFeedback F → Feedback F
  position_feedback : PositionFeedback F → Feedback F
  velocity_feedback : VelocityFeedback F → Feedback F
  config_ack_feedback : ConfigAckFeedback → Feedback F
  query_feedback : QueryFeedback F → Feedback F
  brake_status_feedback : BrakeStatusFeedback → Feedback F
