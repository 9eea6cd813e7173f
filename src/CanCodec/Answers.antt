-- ===== src/CanCodec/Answers.antt =====
-- What the answers to a query need: how long the payload of each is, and which replies fail.
use servo_fleet.Prelude.{ℕ, ◌<◌, ◌≤◌, ◌≡◌, refl, arith, List, length, Option, none, some}
use servo_fleet.Error.{FleetErr, Result, expected, unexpected}
use servo_fleet.Feedback.{MotorErr, ConfigQueryCode, QueryFeedback}
use servo_fleet.Floats.{Floats}
use servo_fleet.CanCodec.Querying.{
  query_code, decode_query_payload, decode_query_result, read_u16_be, read_i16_be, read_u16_float,
  read_f32_be, read_range_u16, read_range_i16, read_gains,
}

-- The bytes that an answer has at least, behind the key.
unfoldable pub answer_len : ConfigQueryCode → ℕ
answer_len ConfigQueryCode.position = 4
answer_len ConfigQueryCode.velocity = 4
answer_len ConfigQueryCode.current = 4
answer_len ConfigQueryCode.power = 4
answer_len ConfigQueryCode.acceleration = 2
answer_len ConfigQueryCode.flux_observer_gain = 2
answer_len ConfigQueryCode.disturbance_compensation_coeff = 2
answer_len ConfigQueryCode.feedback_compensation_coeff = 2
answer_len ConfigQueryCode.damping_coeff = 2
answer_len ConfigQueryCode.torque_ratio = 2
answer_len ConfigQueryCode.pvt_kp_range = 4
answer_len ConfigQueryCode.pvt_kd_range = 4
answer_len ConfigQueryCode.pvt_position_limit_r = 4
answer_len ConfigQueryCode.pvt_velocity_limit_radps = 4
answer_len ConfigQueryCode.pvt_torque_limit_nm = 4
answer_len ConfigQueryCode.pvt_current_limit = 4
answer_len ConfigQueryCode.mcu_uuid = 5
answer_len ConfigQueryCode.version = 6
answer_len ConfigQueryCode.can_timeout = 2
answer_len ConfigQueryCode.current_loop_pi = 4
answer_len ConfigQueryCode.velocity_loop_pi = 4
answer_len ConfigQueryCode.position_loop_pd = 4
answer_len ConfigQueryCode.brake_status = 1

-- An answer that is long enough has the code and the error of the frame, and one that is shorter is
-- a protocol error.
abbrev pub Answers :
    {F : Type 0} → ConfigQueryCode → MotorErr → List ℕ → Result (QueryFeedback F) → Type 0
Answers code error payload (unexpected e) =
    (length payload < answer_len code) × (e ≡ FleetErr.protocol_error)
Answers code error payload (expected v) =
    (answer_len code ≤ length payload) × (v.code ≡ code) × (v.error ≡ error)

module _ (F : Type 0) ⦃fl : Floats F⦄ where
  payload_lem :
      (code : ConfigQueryCode) (result : QueryFeedback F) (payload : List ℕ)
      → result.code ≡ code
      → Answers code result.error payload (decode_query_payload F code result payload)
  unfolding decode_query_payload read_u16_be read_i16_be read_u16_float read_f32_be read_range_u16
      read_range_i16 read_gains answer_len
  payload_lem ConfigQueryCode.position result payload h = ground arith
  payload_lem ConfigQueryCode.velocity result payload h = ground arith
  payload_lem ConfigQueryCode.current result payload h = ground arith
  payload_lem ConfigQueryCode.power result payload h = ground arith
  payload_lem ConfigQueryCode.acceleration result payload h = ground arith
  payload_lem ConfigQueryCode.flux_observer_gain result payload h = ground arith
  payload_lem ConfigQueryCode.disturbance_compensation_coeff result payload h = ground arith
  payload_lem ConfigQueryCode.feedback_compensation_coeff result payload h = ground arith
  payload_lem ConfigQueryCode.damping_coeff result payload h = ground arith
  payload_lem ConfigQueryCode.torque_ratio result payload h = ground arith
  payload_lem ConfigQueryCode.pvt_kp_range result payload h = ground arith
  payload_lem ConfigQueryCode.pvt_kd_range result payload h = ground arith
  payload_lem ConfigQueryCode.pvt_position_limit_r result payload h = ground arith
  payload_lem ConfigQueryCode.pvt_velocity_limit_radps result payload h = ground arith
  payload_lem ConfigQueryCode.pvt_torque_limit_nm result payload h = ground arith
  payload_lem ConfigQueryCode.pvt_current_limit result payload h = ground arith
  payload_lem ConfigQueryCode.mcu_uuid result payload h = ground arith
  payload_lem ConfigQueryCode.version result payload h = ground arith
  payload_lem ConfigQueryCode.can_timeout result payload h = ground arith
  payload_lem ConfigQueryCode.current_loop_pi result payload h = ground arith
  payload_lem ConfigQueryCode.velocity_loop_pi result payload h = ground arith
  payload_lem ConfigQueryCode.position_loop_pd result payload h = ground arith
  payload_lem ConfigQueryCode.brake_status result payload h = ground arith

-- What is known of the decoding of the answer with key `raw`.
abbrev pub Decodes :
    {F : Type 0} → Option ConfigQueryCode → MotorErr → List ℕ → Result (QueryFeedback F) → Type 0
Decodes none error payload r = r ≡ unexpected FleetErr.unsupported
Decodes (some code) error payload r = Answers code error payload r

-- `decode_query_result` is unsupported for a key that is no query code; else it is a protocol error
-- exactly if the payload is shorter than that code needs, and otherwise a feedback with that code
-- and the error of the frame.
pub decode_query_result_lem :
    (F : Type 0) ⦃fl : Floats F⦄ (blank : QueryFeedback F) (raw : ℕ) (error : MotorErr)
    (payload : List ℕ)
    → Decodes (query_code raw) error payload (decode_query_result F blank raw error payload)
unfolding decode_query_result
decode_query_result_lem F blank raw error payload = go (query_code raw)
  where
    go :
        (o : Option ConfigQueryCode)
        → Decodes o error payload (elim o as (λ x. Result (QueryFeedback F)) [
          | none ↦ unexpected FleetErr.unsupported
          | some code ↦
              decode_query_payload F code (record blank { code = code; error = error }) payload
        ])
    go none = refl
    go (some code) = payload_lem F code (record blank { code = code; error = error }) payload refl
