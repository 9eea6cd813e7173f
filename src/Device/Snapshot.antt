-- ===== src/Device/Snapshot.antt =====
-- When the snapshot for the controller is of one frame.
use servo_fleet.Prelude.{◌+◌, ◌<◌, ◌≤◌, ◌^◌, Bool, true, false}
use servo_fleet.Feedback.{
  Feedback, status_feedback, position_feedback, velocity_feedback, config_ack_feedback,
  query_feedback, brake_status_feedback,
}
use servo_fleet.Device.{MotorDevice, pvt_feedback, coherent}

-- The samples of the snapshot are older than the next one.
pub record Counted {F : Type 0} (d : MotorDevice F) : Type 0 where
  pub error_le : d.motor_error.seq ≤ d.sample_seq
  pub position_le : d.position_deg.seq ≤ d.sample_seq
  pub velocity_le : d.velocity_rpm.seq ≤ d.sample_seq
  pub current_le : d.current.seq ≤ d.sample_seq
  pub room : d.sample_seq + 1 < 2 ^ 64

-- A frame leaves a coherent snapshot if it is a status frame, or an acknowledgement, which changes
-- no sample, after a coherent one.
unfoldable pub coherent_after : {F : Type 0} → MotorDevice F → Feedback F → Bool
coherent_after d (status_feedback v) = true
coherent_after d (position_feedback v) = false
coherent_after d (velocity_feedback v) = false
coherent_after d (config_ack_feedback v) = coherent (pvt_feedback d)
coherent_after d (query_feedback v) = false
coherent_after d (brake_status_feedback v) = false
