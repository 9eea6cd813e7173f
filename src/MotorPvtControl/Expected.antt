-- ===== src/MotorPvtControl/Expected.antt =====
-- What a motor is to be sent around the control loops of the PVT tool, command by command.
use servo_fleet.Prelude.{ℕ, ◌&&◌, not, if◌then◌else◌, Bool, true, List, [], ◌∷◌, ◌++◌, map}
use servo_fleet.Error.{is_error}
use servo_fleet.Feedback.{Range, ConfigQueryCode}
use servo_fleet.Floats.{Floats, literal, neg_literal}
use servo_fleet.Device.{fresh}
use servo_fleet.Commands.{
  Command, PvtCommand, pvt_command, torque_command, brake_command, config_set_command,
  config_query_command, engage_brake, ReplyMode, ConfigSetValue,
}
use servo_fleet.Commands.ConfigSetCode
use servo_fleet.MotorPvtControl.Session.{View}

module _ {F : Type 0} ⦃fl : Floats F⦄ where
  -- The original limit is no more than two milliseconds old.
  abbrev pub limit_read : View F → Bool
  limit_read v = fresh v.limit v.limit_now 2000000

  -- The original limit was read, and the lower one accepted.
  abbrev pub limit_lowered : View F → Bool
  limit_lowered v = limit_read v && not (is_error v.limit_error)

  abbrev pub may_drive : View F → Bool
  may_drive v = limit_lowered v && not (is_error v.brake_error)

  abbrev pub query : ℕ → ConfigQueryCode → Command F fl.Double
  query device_id code = config_query_command (record { device_id = device_id; code = code })

  abbrev pub current_limit : ℕ → Range F → Command F fl.Double
  current_limit device_id range = config_set_command (record {
    device_id = device_id;
    code = ConfigSetCode.pvt_current_limit;
    value = ConfigSetValue.float_range_value range;
  })

  -- 0.8 A in either direction.
  abbrev pub low_limit : Range F
  low_limit = record { min = fl.lit (neg_literal 8 1); max = fl.lit (literal 8 1) }

  abbrev pub feedback : ℕ → List (Command F fl.Double)
  feedback device_id =
      query device_id ConfigQueryCode.position
      ∷ query device_id ConfigQueryCode.velocity
      ∷ query device_id ConfigQueryCode.current
      ∷ []

  -- The limits are queried, the current limit last; it is lowered if it was read; the feedback is
  -- queried and the brake released.
  abbrev pub before : ℕ → View F → List (Command F fl.Double)
  before device_id v =
      (query device_id ConfigQueryCode.pvt_kp_range
        ∷ query device_id ConfigQueryCode.pvt_kd_range
        ∷ query device_id ConfigQueryCode.pvt_position_limit_r
        ∷ query device_id ConfigQueryCode.pvt_velocity_limit_radps
        ∷ query device_id ConfigQueryCode.pvt_torque_limit_nm
        ∷ query device_id ConfigQueryCode.pvt_current_limit
        ∷ [])
      ++ (if limit_read v then current_limit device_id low_limit ∷ [] else [])
      ++ feedback device_id
      ++ (brake_command (record {
        device_id = device_id;
        control = engage_brake true;
        reply = ReplyMode.status1;
      })
          ∷ [])

  -- The position is queried, and then come the PVT commands.
  abbrev pub driving : ℕ → View F → List (PvtCommand F) → List (Command F fl.Double)
  driving device_id v driven =
      if may_drive v then query device_id ConfigQueryCode.position ∷ map pvt_command driven else []

  -- No torque, the original limit if it was lowered, and the queries of the feedback.
  abbrev pub after : ℕ → View F → List (Command F fl.Double)
  after device_id v =
      (torque_command (record {
        device_id = device_id;
        torque_nm = fl.lit (literal 0 0);
        reply = ReplyMode.status1;
      })
        ∷ [])
      ++ (if limit_lowered v then current_limit device_id v.limit.value ∷ [] else [])
      ++ feedback device_id

  abbrev pub session : ℕ → View F → List (PvtCommand F) → List (Command F fl.Double)
  session device_id v driven =
      (before device_id v ++ driving device_id v driven) ++ after device_id v
