-- ===== src/CanCodec/Replies.antt =====
-- The replies of a motor as values: what `parse_feedback` makes of a frame, by the bits of its data.
use servo_fleet.Prelude.{
  ℕ, ◌-◌, ◌==◌, ◌&&◌, ◌||◌, not, Bool, true, if◌then◌else◌, Option, none, some, ltb, leb, take,
  drop,
}
use servo_fleet.Error.{FleetErr, Result, expected, unexpected, transform}
use servo_fleet.BitCodec.FieldReads.{field_value}
use servo_fleet.CanFrame.{CanFrame, as_bytes_view}
use servo_fleet.Commands.ConfigSetCode
use servo_fleet.Feedback.{
  MotorErr, Range, QueryFeedback, Feedback, ConfigAckFeedback, status_feedback, position_feedback,
  velocity_feedback, config_ack_feedback, query_feedback, brake_status_feedback,
}
use servo_fleet.Floats.{literal, Floats}
use servo_fleet.CanCodec.Querying.{decode_query_result}
use servo_fleet.CanCodec.Parsing.{
  parse_error, i16_x100_to_f32, u8_temp_to_celsius, decode_symmetric, decode_current, byte_of,
}

-- The number in `len` bits of the data from bit `offset` on.
unfoldable pub bits_at : CanFrame → (offset len : ℕ) → ℕ
bits_at frame offset len = field_value (record { offset = offset; len = len }) (as_bytes_view frame)

-- An acknowledgement on the broadcast identifier.
unfoldable pub broadcast_ack : CanFrame → Option ConfigAckFeedback
broadcast_ack frame =
    let starts : Bool = byte_of frame 0 == 0xff && byte_of frame 1 == 0xff in
    if not (frame.id == 0x7ff && byte_of frame 2 == 1)
    then none
    else if frame.len == 5 && starts
    then some (record { error = MotorErr.none; code = ConfigSetCode.comm_mode; accepted = true })
    else if leb 4 frame.len
    then some (record {
      error = MotorErr.none;
      code = ConfigSetCode.accel;
      accepted = not (byte_of frame 3 == 0);
    })
    else none

-- The bytes that a reply of each type has at least; 0 for a type that there is not.
abbrev pub reply_len : ℕ → ℕ
reply_len kind =
    if kind == 1 || kind == 2 || kind == 3
    then 8
    else if kind == 4
    then 3
    else if kind == 5 || kind == 6
    then 2
    else 0

module _ (F : Type 0) ⦃fl : Floats F⦄ (blank : QueryFeedback F) where
  -- A reply that is long enough.
  unfoldable pub reply_value : CanFrame → Option (Range F) → ℕ → MotorErr → Result (Feedback F)
  reply_value frame range kind error =
      if kind == 1
      then expected (
          status_feedback (record {
            error = error;
            position_r = decode_symmetric F (bits_at frame 8 16) (literal 125 1) 65535;
            velocity_radps = decode_symmetric F (bits_at frame 24 12) (literal 18 0) 4095;
            current = decode_current F range (bits_at frame 36 12);
            motor_temp_c = u8_temp_to_celsius F (bits_at frame 48 8);
            mosfet_temp_c = u8_temp_to_celsius F (bits_at frame 56 8);
          }))
      else if kind == 2
      then expected (
          position_feedback (record {
            error = error;
            position = fl.bits_to_f32 (bits_at frame 8 32);
            current = i16_x100_to_f32 F (bits_at frame 40 16);
            motor_temp_c = u8_temp_to_celsius F (bits_at frame 56 8);
          }))
      else if kind == 3
      then expected (
          velocity_feedback (record {
            error = error;
            velocity = fl.bits_to_f32 (bits_at frame 8 32);
            current = i16_x100_to_f32 F (bits_at frame 40 16);
            motor_temp_c = u8_temp_to_celsius F (bits_at frame 56 8);
          }))
      else if kind == 4
      then expected (
          config_ack_feedback (record {
            error = error;
            code = bits_at frame 8 8;
            accepted = bits_at frame 16 8 == 1;
          }))
      else if kind == 5
      then transform query_feedback (
          decode_query_result F blank (bits_at frame 8 8) error
            (take (frame.len - 2) (drop 2 frame.bytes)))
      else expected
          (brake_status_feedback (record { error = error; engaged = not (bits_at frame 8 8 == 0) }))

  unfoldable pub typed_reply : CanFrame → Option (Range F) → Result (Feedback F)
  unfolding reply_value
  typed_reply frame range =
      let kind = bits_at frame 0 3 in
      if reply_len kind == 0
      then unexpected FleetErr.unsupported
      else if ltb frame.len (reply_len kind)
      then unexpected FleetErr.protocol_error
      else reply_value frame range kind (parse_error (bits_at frame 3 5))

  unfoldable pub reply_of : CanFrame → Option (Range F) → Result (Feedback F)
  unfolding typed_reply broadcast_ack
  reply_of frame range =
      if frame.len == 0 || ltb 8 frame.len
      then unexpected FleetErr.protocol_error
      else elim (broadcast_ack frame) [
        | some ack ↦ expected (config_ack_feedback ack)
        | none ↦ typed_reply frame range
      ]
