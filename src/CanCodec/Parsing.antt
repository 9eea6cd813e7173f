-- ===== src/CanCodec/Parsing.antt =====
-- src/codec_can.cc: `parse_error` to `parse_brake_response`, and `parse_feedback`.
use servo_fleet.Prelude.{
  ℕ, ◌-◌, ◌==◌, ◌&&◌, ◌||◌, not, true, if◌then◌else◌, Option, none, some, get_or, ltb, leb, take,
  drop, bit_and,
}
use servo_fleet.Words.{u8}
use servo_fleet.Error.{FleetErr, Result, expected, unexpected, transform, ◌>>=◌}
use servo_fleet.CanFrame.{CanFrame, broadcast_can_id, max_can_data_len}
use servo_fleet.Commands.ConfigSetCode
use servo_fleet.Feedback.{
  MotorErr, Range, QueryFeedback, Feedback, ConfigAckFeedback, status_feedback, position_feedback,
  velocity_feedback, config_ack_feedback, query_feedback, brake_status_feedback,
}
use servo_fleet.Floats.{pos, to_i16, literal, Literal, Floats}
use servo_fleet.CanCodec.{read_field}
use servo_fleet.CanCodec.CanField.Feedback1
use servo_fleet.CanCodec.CanField.Feedback2
use servo_fleet.CanCodec.CanField.Feedback3
use servo_fleet.CanCodec.CanField.FeedbackConfig
use servo_fleet.CanCodec.CanField.FeedbackQuery
use servo_fleet.CanCodec.CanField.FeedbackBrake
use servo_fleet.CanCodec.Querying.{decode_query_result}

unfoldable pub parse_error : ℕ → MotorErr
parse_error value =
    let code = u8 value in
    if code == 0
    then MotorErr.none
    else if code == 1
    then MotorErr.over_temp
    else if code == 2
    then MotorErr.over_current
    else if code == 3
    then MotorErr.over_voltage
    else if code == 4
    then MotorErr.under_voltage
    else if code == 5
    then MotorErr.encoder_fail
    else if code == 6
    then MotorErr.brake_over_voltage
    else if code == 7
    then MotorErr.driver
    else if code == 0x1e
    then MotorErr.comm
    else MotorErr.unknown

-- A field that cannot be read is a protocol error, whatever the error was.
abbrev pub or_protocol : {A : Type 0} → Result A → Result A
or_protocol (expected a) = expected a
or_protocol (unexpected e) = unexpected FleetErr.protocol_error

-- `require_frame_len`, and what follows it.
unfoldable pub require_frame_len : {A : Type 0} → CanFrame → ℕ → Result A → Result A
require_frame_len frame min_len next =
    if ltb frame.len min_len then unexpected FleetErr.protocol_error else next

abbrev pub ok_status : ℕ
ok_status = 1

abbrev pub byte_of : CanFrame → ℕ → ℕ
byte_of frame i = get_or frame.bytes i 0

-- The acknowledgement's `error` and `code` keep their defaults unless they are set.
unfoldable pub parse_broadcast_response : CanFrame → Result ConfigAckFeedback
parse_broadcast_response frame =
    if not (frame.id == broadcast_can_id)
    then unexpected FleetErr.unsupported
    else if frame.len == 5
        && byte_of frame 0 == 0xff
        && byte_of frame 1 == 0xff
        && byte_of frame 2 == 0x01
    then expected
        (record { error = MotorErr.none; code = ConfigSetCode.comm_mode; accepted = true })
    else if leb 4 frame.len && byte_of frame 2 == 0x01
    then expected (record {
      error = MotorErr.none;
      code = ConfigSetCode.accel;
      accepted = not (byte_of frame 3 == 0);
    })
    else unexpected FleetErr.unsupported

unfoldable pub parse_config_ack_response : CanFrame → MotorErr → Result ConfigAckFeedback
unfolding require_frame_len read_field
parse_config_ack_response frame error = require_frame_len frame 3 (
    or_protocol (do
      key ← read_field FeedbackConfig.key frame
      status ← read_field FeedbackConfig.status frame
      expected (record { error = error; code = u8 key; accepted = status == ok_status })))

module _ (F : Type 0) ⦃fl : Floats F⦄ where
  unfoldable pub i16_x100_to_f32 : ℕ → F
  i16_x100_to_f32 raw = fl.fdiv (fl.of_int (to_i16 (bit_and raw 0xffff))) (fl.lit (literal 100 0))

  unfoldable pub u8_temp_to_celsius : ℕ → F
  u8_temp_to_celsius raw =
      fl.fdiv (fl.fsub (fl.of_int (pos (bit_and raw 0xff))) (fl.lit (literal 50 0)))
        (fl.lit (literal 2 0))

  unfoldable pub decode_symmetric : ℕ → Literal → ℕ → F
  decode_symmetric raw range max_raw =
      fl.fsub
        (fl.fmul (fl.fdiv (fl.of_int (pos raw)) (fl.lit (literal max_raw 0)))
          (fl.fmul (fl.lit (literal 2 0)) (fl.lit range)))
        (fl.lit range)

  unfoldable pub decode_linear : ℕ → Range F → ℕ → F
  decode_linear raw range max_raw = fl.fadd range.min (
      fl.fmul (fl.fdiv (fl.of_int (pos raw)) (fl.lit (literal max_raw 0)))
        (fl.fsub range.max range.min))

  -- The current of a status frame, in the range of the motor if that is known.
  unfoldable pub decode_current : Option (Range F) → ℕ → F
  unfolding decode_linear
  decode_current none raw = fl.fdiv (fl.of_int (pos raw)) (fl.lit (literal 4095 0))
  decode_current (some range) raw = decode_linear raw range 4095

  unfoldable pub parse_status1_response :
      CanFrame → MotorErr → Option (Range F) → Result (Feedback F)
  unfolding require_frame_len read_field decode_symmetric decode_current u8_temp_to_celsius
  parse_status1_response frame error current_range = require_frame_len frame 8 (
      or_protocol (do
        position ← read_field Feedback1.position frame
        velocity ← read_field Feedback1.velocity frame
        current ← read_field Feedback1.current frame
        motor_temp ← read_field Feedback1.motor_temp frame
        mosfet_temp ← read_field Feedback1.mosfet_temp frame
        expected (
            status_feedback (record {
              error = error;
              position_r = decode_symmetric position (literal 125 1) 65535;
              velocity_radps = decode_symmetric velocity (literal 18 0) 4095;
              current = decode_current current_range current;
              motor_temp_c = u8_temp_to_celsius motor_temp;
              mosfet_temp_c = u8_temp_to_celsius mosfet_temp;
            }))))

  unfoldable pub parse_position_response : CanFrame → MotorErr → Result (Feedback F)
  unfolding require_frame_len read_field i16_x100_to_f32 u8_temp_to_celsius
  parse_position_response frame error = require_frame_len frame 8 (
      or_protocol (do
        position ← read_field Feedback2.position_deg frame
        current ← read_field Feedback2.current_x100 frame
        temp ← read_field Feedback2.temp frame
        expected (
            position_feedback (record {
              error = error;
              position = fl.bits_to_f32 position;
              current = i16_x100_to_f32 current;
              motor_temp_c = u8_temp_to_celsius temp;
            }))))

  unfoldable pub parse_velocity_response : CanFrame → MotorErr → Result (Feedback F)
  unfolding require_frame_len read_field i16_x100_to_f32 u8_temp_to_celsius
  parse_velocity_response frame error = require_frame_len frame 8 (
      or_protocol (do
        velocity ← read_field Feedback3.rpm frame
        current ← read_field Feedback3.current_x100 frame
        temp ← read_field Feedback3.temp frame
        expected (
            velocity_feedback (record {
              error = error;
              velocity = fl.bits_to_f32 velocity;
              current = i16_x100_to_f32 current;
              motor_temp_c = u8_temp_to_celsius temp;
            }))))

  unfoldable pub parse_query_response : QueryFeedback F → CanFrame → MotorErr → Result (Feedback F)
  unfolding require_frame_len read_field decode_query_result
  parse_query_response blank frame error =
      let payload = take (frame.len - 2) (drop 2 frame.bytes) in
      require_frame_len frame 2 (
        transform query_feedback (
          read_field FeedbackQuery.key frame >>= λ raw.
          decode_query_result F blank raw error payload))

  unfoldable pub parse_brake_response : CanFrame → MotorErr → Result (Feedback F)
  unfolding require_frame_len read_field
  parse_brake_response frame error = require_frame_len frame 2 (
      or_protocol (do
        engaged ← read_field FeedbackBrake.engaged frame
        expected (brake_status_feedback (record { error = error; engaged = not (engaged == 0) }))))

  -- The switch on the type of the reply.
  unfoldable pub parse_response :
      QueryFeedback F → CanFrame → Option (Range F) → (kind error : ℕ) → Result (Feedback F)
  unfolding parse_error parse_status1_response parse_position_response parse_velocity_response
      parse_config_ack_response parse_query_response parse_brake_response
  parse_response blank frame range kind error =
      if kind == 1
      then parse_status1_response frame (parse_error error) range
      else if kind == 2
      then parse_position_response frame (parse_error error)
      else if kind == 3
      then parse_velocity_response frame (parse_error error)
      else if kind == 4
      then transform config_ack_feedback (parse_config_ack_response frame (parse_error error))
      else if kind == 5
      then parse_query_response blank frame (parse_error error)
      else if kind == 6
      then parse_brake_response frame (parse_error error)
      else unexpected FleetErr.unsupported

  -- What follows the broadcast response.
  unfoldable pub parse_typed : QueryFeedback F → CanFrame → Option (Range F) → Result (Feedback F)
  unfolding read_field parse_response
  parse_typed blank frame range = do
    kind ← or_protocol (read_field Feedback1.kind frame)
    error ← or_protocol (read_field Feedback1.error frame)
    parse_response blank frame range kind error

  unfoldable pub parse_feedback :
      QueryFeedback F → CanFrame → Option (Range F) → Result (Feedback F)
  unfolding parse_broadcast_response parse_typed
  parse_feedback blank frame range =
      if frame.len == 0 || ltb max_can_data_len frame.len
      then unexpected FleetErr.protocol_error
      else if frame.id == broadcast_can_id
      then elim (parse_broadcast_response frame) [
        | expected response ↦ expected (config_ack_feedback response)
        | unexpected e ↦ parse_typed blank frame range
      ]
      else parse_typed blank frame range
