-- ===== src/CanCodec/ReplyValues.antt =====
-- Each kind of reply that `parse_feedback` reads, as a value: no read of a field fails.
use native.Mathlib.Nat.{mod-eq_of_lt}
use servo_fleet.Prelude.{
  ℕ, ◌%◌, ◌^◌, ◌≤◌, ◌<◌, ◌≡◌, ◌∙◌, arith, if◌then◌else◌, Option, ltb, Bool-cases, inl, inr,
}
use servo_fleet.Error.{FleetErr, expected, unexpected, transform}
use servo_fleet.BitCodec.{Bits}
use servo_fleet.BitCodec.View.{bits_value-lt, bit_at, bit_at-lt}
use servo_fleet.BitCodec.FieldReads.{field_value}
use servo_fleet.BitCodec.Fields.{read_lem}
use servo_fleet.CanFrame.{CanFrame, IsFrame, as_bytes_view}
use servo_fleet.Feedback.{MotorErr, Range, QueryFeedback, Feedback, config_ack_feedback}
use servo_fleet.Floats.{Floats}
use servo_fleet.CanCodec.{read_field}
use servo_fleet.CanCodec.CanField.Feedback1
use servo_fleet.CanCodec.CanField.Feedback2
use servo_fleet.CanCodec.CanField.Feedback3
use servo_fleet.CanCodec.CanField.FeedbackConfig
use servo_fleet.CanCodec.CanField.FeedbackQuery
use servo_fleet.CanCodec.CanField.FeedbackBrake
use servo_fleet.CanCodec.Layout.{Inside, IsField-of, view_are, length-view}
use servo_fleet.CanCodec.Parsing.{
  require_frame_len, parse_config_ack_response, parse_status1_response, parse_position_response,
  parse_velocity_response, parse_query_response, parse_brake_response,
}
use servo_fleet.CanCodec.Replies.{bits_at, reply_value}

bits_at-lt : (frame : CanFrame) (offset len : ℕ) → bits_at frame offset len < 2 ^ len
unfolding bits_at field_value
bits_at-lt frame offset len =
    bits_value-lt (bit_at (as_bytes_view frame)) (bit_at-lt (as_bytes_view frame)) offset len

module _ (F : Type 0) ⦃fl : Floats F⦄ (blank : QueryFeedback F) (frame : CanFrame)
    (typed : IsFrame frame) (small : frame.len ≤ 8) where
  pub read_value :
      (f : Bits) → Inside frame.len f → read_field f frame ≡ expected (bits_at frame f.offset f.len)
  unfolding read_field bits_at
  read_value f inside =
      let view = length-view frame typed.eight small typed.bytes_are in
      read_lem f (as_bytes_view frame) (view_are frame typed.eight small typed.bytes_are)
        (IsField-of frame typed.eight small typed.bytes_are f inside)
      ∙ ground arith

  pub status_lem :
      (error : MotorErr) (range : Option (Range F))
      → parse_status1_response F frame error range ≡ (
          if ltb frame.len 8
          then unexpected FleetErr.protocol_error
          else reply_value F blank frame range 1 error)
  unfolding parse_status1_response require_frame_len reply_value
  status_lem error range = elim (Bool-cases (ltb frame.len 8)) [
    | inl short ↦ rw short
    | inr long ↦
        let le : 8 ≤ frame.len = ground arith in
        rw (
          long,
          read_value Feedback1.position (omega arith),
          read_value Feedback1.velocity (omega arith),
          read_value Feedback1.current (omega arith),
          read_value Feedback1.motor_temp (omega arith),
          read_value Feedback1.mosfet_temp (omega arith),
        )
  ]

  pub position_lem :
      (error : MotorErr) (range : Option (Range F))
      → parse_position_response F frame error ≡ (
          if ltb frame.len 8
          then unexpected FleetErr.protocol_error
          else reply_value F blank frame range 2 error)
  unfolding parse_position_response require_frame_len reply_value
  position_lem error range = elim (Bool-cases (ltb frame.len 8)) [
    | inl short ↦ rw short
    | inr long ↦
        let le : 8 ≤ frame.len = ground arith in
        rw (
          long,
          read_value Feedback2.position_deg (omega arith),
          read_value Feedback2.current_x100 (omega arith),
          read_value Feedback2.temp (omega arith),
        )
  ]

  pub velocity_lem :
      (error : MotorErr) (range : Option (Range F))
      → parse_velocity_response F frame error ≡ (
          if ltb frame.len 8
          then unexpected FleetErr.protocol_error
          else reply_value F blank frame range 3 error)
  unfolding parse_velocity_response require_frame_len reply_value
  velocity_lem error range = elim (Bool-cases (ltb frame.len 8)) [
    | inl short ↦ rw short
    | inr long ↦
        let le : 8 ≤ frame.len = ground arith in
        rw (
          long,
          read_value Feedback3.rpm (omega arith),
          read_value Feedback3.current_x100 (omega arith),
          read_value Feedback3.temp (omega arith),
        )
  ]

  pub ack_lem :
      (error : MotorErr) (range : Option (Range F))
      → transform {B = Feedback F} config_ack_feedback (parse_config_ack_response frame error) ≡ (
          if ltb frame.len 3
          then unexpected FleetErr.protocol_error
          else reply_value F blank frame range 4 error)
  unfolding parse_config_ack_response require_frame_len reply_value
  ack_lem error range = elim (Bool-cases (ltb frame.len 3)) [
    | inl short ↦ rw short
    | inr long ↦
        let le : 3 ≤ frame.len = ground arith in
        let whole : bits_at frame 8 8 % 256 ≡ bits_at frame 8 8 =
          mod-eq_of_lt (bits_at-lt frame 8 8) in
        rw (
          long,
          read_value FeedbackConfig.key (omega arith),
          read_value FeedbackConfig.status (omega arith),
          whole,
        )
  ]

  pub query_lem :
      (error : MotorErr) (range : Option (Range F))
      → parse_query_response F blank frame error ≡ (
          if ltb frame.len 2
          then unexpected FleetErr.protocol_error
          else reply_value F blank frame range 5 error)
  unfolding parse_query_response require_frame_len reply_value
  query_lem error range = elim (Bool-cases (ltb frame.len 2)) [
    | inl short ↦ rw short
    | inr long ↦
        let le : 2 ≤ frame.len = ground arith in
        rw (long, read_value FeedbackQuery.key (omega arith))
  ]

  pub brake_lem :
      (error : MotorErr) (range : Option (Range F))
      → parse_brake_response F frame error ≡ (
          if ltb frame.len 2
          then unexpected FleetErr.protocol_error
          else reply_value F blank frame range 6 error)
  unfolding parse_brake_response require_frame_len reply_value
  brake_lem error range = elim (Bool-cases (ltb frame.len 2)) [
    | inl short ↦ rw short
    | inr long ↦
        let le : 2 ≤ frame.len = ground arith in
        rw (long, read_value FeedbackBrake.engaged (omega arith))
  ]
