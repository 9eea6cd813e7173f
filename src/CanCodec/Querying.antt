-- ===== src/CanCodec/Querying.antt =====
-- src/codec_can.cc: the numbers of a reply, and `decode_query_result`. The fields of a new
-- `query_feedback` that its constructor leaves open are those of a parameter, `blank`.
use servo_fleet.Prelude.{
  ℕ, ◌+◌, ◌==◌, not, if◌then◌else◌, Option, none, some, List, [], ◌∷◌, length, get_or, ltb, bit_or,
}
use servo_fleet.Words.{u16, shl, shl32}
use servo_fleet.Error.{FleetErr, Result, expected, unexpected, transform, ◌>>=◌}
use servo_fleet.Feedback.{MotorErr, Range, ConfigQueryCode, QueryFeedback}
use servo_fleet.Floats.{ℤ, pos, to_i16, literal, Floats}

-- `static_cast<config_query_code>`: `none` for a byte that no enumerator has.
unfoldable pub query_code : ℕ → Option ConfigQueryCode
query_code raw =
    if raw == 1
    then some ConfigQueryCode.position
    else if raw == 2
    then some ConfigQueryCode.velocity
    else if raw == 3
    then some ConfigQueryCode.current
    else if raw == 4
    then some ConfigQueryCode.power
    else if raw == 5
    then some ConfigQueryCode.acceleration
    else if raw == 6
    then some ConfigQueryCode.flux_observer_gain
    else if raw == 7
    then some ConfigQueryCode.disturbance_compensation_coeff
    else if raw == 8
    then some ConfigQueryCode.feedback_compensation_coeff
    else if raw == 9
    then some ConfigQueryCode.damping_coeff
    else if raw == 22
    then some ConfigQueryCode.torque_ratio
    else if raw == 23
    then some ConfigQueryCode.pvt_kp_range
    else if raw == 24
    then some ConfigQueryCode.pvt_kd_range
    else if raw == 25
    then some ConfigQueryCode.pvt_position_limit_r
    else if raw == 26
    then some ConfigQueryCode.pvt_velocity_limit_radps
    else if raw == 27
    then some ConfigQueryCode.pvt_torque_limit_nm
    else if raw == 28
    then some ConfigQueryCode.pvt_current_limit
    else if raw == 29
    then some ConfigQueryCode.mcu_uuid
    else if raw == 30
    then some ConfigQueryCode.version
    else if raw == 31
    then some ConfigQueryCode.can_timeout
    else if raw == 32
    then some ConfigQueryCode.current_loop_pi
    else if raw == 33
    then some ConfigQueryCode.velocity_loop_pi
    else if raw == 34
    then some ConfigQueryCode.position_loop_pd
    else if raw == 37
    then some ConfigQueryCode.brake_status
    else none

unfoldable pub read_u16_be : List ℕ → ℕ → Result ℕ
read_u16_be bytes offset =
    if ltb (length bytes) (offset + 2)
    then unexpected FleetErr.protocol_error
    else expected (u16 (bit_or (shl (get_or bytes offset 0) 8) (get_or bytes (offset + 1) 0)))

unfoldable pub read_i16_be : List ℕ → ℕ → Result ℤ
read_i16_be bytes offset =
    if ltb (length bytes) (offset + 2)
    then unexpected FleetErr.protocol_error
    else expected
        (to_i16 (u16 (bit_or (shl (get_or bytes offset 0) 8) (get_or bytes (offset + 1) 0))))

module _ (F : Type 0) ⦃fl : Floats F⦄ where
  -- `read_u16_be` into a float.
  unfoldable pub read_u16_float : List ℕ → ℕ → Result F
  read_u16_float bytes offset =
      if ltb (length bytes) (offset + 2)
      then unexpected FleetErr.protocol_error
      else expected (
          fl.of_int
            (pos (u16 (bit_or (shl (get_or bytes offset 0) 8) (get_or bytes (offset + 1) 0)))))

  unfoldable pub read_f32_be : List ℕ → ℕ → Result F
  read_f32_be bytes offset =
      let raw =
        bit_or
          (bit_or
            (bit_or (shl32 (get_or bytes offset 0) 24) (shl32 (get_or bytes (offset + 1) 0) 16))
            (shl32 (get_or bytes (offset + 2) 0) 8))
          (get_or bytes (offset + 3) 0) in
      if ltb (length bytes) (offset + 4)
      then unexpected FleetErr.protocol_error
      else expected (fl.bits_to_f32 raw)

  -- The two ends of a range, as they stand.
  unfoldable pub read_range_u16 : List ℕ → Result (Range F)
  unfolding read_u16_float
  read_range_u16 payload = do
    low ← read_u16_float payload 0
    high ← read_u16_float payload 2
    expected (record { min = low; max = high })

  -- The two ends of a range, which the scale divides.
  unfoldable pub read_range_i16 : List ℕ → ℕ → Result (Range F)
  unfolding read_i16_be
  read_range_i16 payload scale = do
    minn ← read_i16_be payload 0
    maxx ← read_i16_be payload 2
    expected (record {
      min = fl.fdiv (fl.of_int minn) (fl.lit (literal scale 0));
      max = fl.fdiv (fl.of_int maxx) (fl.lit (literal scale 0));
    })

  -- Two gains, with what divides each.
  unfoldable pub read_gains : List ℕ → ℕ → ℕ → Result (F × F)
  unfolding read_u16_float
  read_gains payload first_scale second_scale = do
    first ← read_u16_float payload 0
    second ← read_u16_float payload 2
    expected (
      fl.fdiv first (fl.lit (literal first_scale 0)),
      fl.fdiv second (fl.lit (literal second_scale 0)),
    )

  -- The float 0.0 of a gain that is not read.
  abbrev pub no_gain : F
  no_gain = fl.lit (literal 0 0)

  -- The switch, on the payload behind the key, into a result whose code and error are set.
  unfoldable pub decode_query_payload :
      ConfigQueryCode → QueryFeedback F → List ℕ → Result (QueryFeedback F)
  unfolding read_u16_be read_u16_float read_f32_be read_range_u16 read_range_i16 read_gains
  decode_query_payload ConfigQueryCode.position result payload =
      transform (λ v. record result { position_deg = v }) (read_f32_be payload 0)
  decode_query_payload ConfigQueryCode.velocity result payload =
      transform (λ v. record result { velocity_rpm = v }) (read_f32_be payload 0)
  decode_query_payload ConfigQueryCode.current result payload =
      transform (λ v. record result { current = v }) (read_f32_be payload 0)
  decode_query_payload ConfigQueryCode.power result payload =
      transform (λ v. record result { power = v }) (read_f32_be payload 0)
  decode_query_payload ConfigQueryCode.acceleration result payload =
      transform (λ v. record result { acceleration_radps2 = v }) (read_u16_float payload 0)
  decode_query_payload ConfigQueryCode.flux_observer_gain result payload =
      transform (λ v. record result { flux_observer_gain = v }) (read_u16_float payload 0)
  decode_query_payload ConfigQueryCode.disturbance_compensation_coeff result payload =
      transform (λ v. record result { disturbance_compensation_coeff = v })
        (read_u16_float payload 0)
  decode_query_payload ConfigQueryCode.feedback_compensation_coeff result payload =
      transform (λ v. record result { feedback_compensation_coeff = v }) (read_u16_float payload 0)
  decode_query_payload ConfigQueryCode.damping_coeff result payload =
      transform (λ v. record result { damping_coeff = v }) (read_u16_float payload 0)
  decode_query_payload ConfigQueryCode.torque_ratio result payload =
      transform (λ v. record result { torque_ratio = fl.fdiv v (fl.lit (literal 100 0)) })
        (read_u16_float payload 0)
  decode_query_payload ConfigQueryCode.pvt_kp_range result payload =
      transform (λ r. record result { pvt_kp_range = r }) (read_range_u16 payload)
  decode_query_payload ConfigQueryCode.pvt_kd_range result payload =
      transform (λ r. record result { pvt_kd_range = r }) (read_range_u16 payload)
  decode_query_payload ConfigQueryCode.pvt_position_limit_r result payload =
      transform (λ r. record result { pvt_position_limit_r = r }) (read_range_i16 payload 100)
  decode_query_payload ConfigQueryCode.pvt_velocity_limit_radps result payload =
      transform (λ r. record result { pvt_velocity_limit_radps = r }) (read_range_i16 payload 100)
  decode_query_payload ConfigQueryCode.pvt_torque_limit_nm result payload =
      transform (λ r. record result { pvt_torque_limit_nm = r }) (read_range_i16 payload 10)
  decode_query_payload ConfigQueryCode.pvt_current_limit result payload =
      transform (λ r. record result { pvt_current_limit = r }) (read_range_i16 payload 10)
  decode_query_payload ConfigQueryCode.mcu_uuid result payload =
      if ltb (length payload) 5
      then unexpected FleetErr.protocol_error
      else expected (record result {
        mcu_uuid_fragment = record {
          index = get_or payload 0 0;
          bytes =
              get_or payload 1 0
              ∷ get_or payload 2 0
              ∷ get_or payload 3 0
              ∷ get_or payload 4 0
              ∷ [];
        };
      })
  decode_query_payload ConfigQueryCode.version result payload =
      if ltb (length payload) 6
      then unexpected FleetErr.protocol_error
      else expected (record result {
        version = record {
          hw_major = get_or payload 0 0;
          hw_minor = get_or payload 1 0;
          hw_patch = get_or payload 2 0;
          fw_major = get_or payload 3 0;
          fw_minor = get_or payload 4 0;
          fw_patch = get_or payload 5 0;
        };
      })
  decode_query_payload ConfigQueryCode.can_timeout result payload =
      transform (λ v. record result { can_timeout = v }) (read_u16_be payload 0)
  decode_query_payload ConfigQueryCode.current_loop_pi result payload =
      transform
        (λ g. record result { current_loop_pi = record { kp = g.0; ki = g.1; kd = no_gain } })
        (read_gains payload 10000 10)
  decode_query_payload ConfigQueryCode.velocity_loop_pi result payload =
      transform
        (λ g. record result { velocity_loop_pi = record { kp = g.0; ki = g.1; kd = no_gain } })
        (read_gains payload 100000 100000)
  decode_query_payload ConfigQueryCode.position_loop_pd result payload =
      transform
        (λ g. record result { position_loop_pd = record { kp = g.0; kd = g.1; ki = no_gain } })
        (read_gains payload 100000 100000)
  decode_query_payload ConfigQueryCode.brake_status result payload =
      if ltb (length payload) 1
      then unexpected FleetErr.protocol_error
      else expected (record result { brake_status = not (get_or payload 0 0 == 0) })

  unfoldable pub decode_query_result :
      QueryFeedback F → ℕ → MotorErr → List ℕ → Result (QueryFeedback F)
  unfolding query_code decode_query_payload
  decode_query_result blank raw error payload = elim (query_code raw) [
    | none ↦ unexpected FleetErr.unsupported
    | some code ↦ decode_query_payload code (record blank { code = code; error = error }) payload
  ]
