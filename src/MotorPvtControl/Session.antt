-- ===== src/MotorPvtControl/Session.antt =====
-- pvt/motor_pvt_control.cc: what the PVT tool does with one motor, from the queries to the cleanup.
use servo_fleet.Prelude.{
  ℕ, ◌&&◌, not, if◌then◌else◌, Bool, true, false, List, [], ◌∷◌, ◌++◌, Option, none, some, map,
}
use servo_fleet.Error.{FleetErr, is_error}
use servo_fleet.Feedback.{Range, ConfigQueryCode}
use servo_fleet.Floats.{Floats, literal, neg_literal}
use servo_fleet.Device.{Sample, fresh}
use servo_fleet.Commands.{
  Command, PvtCommand, pvt_command, torque_command, brake_command, config_set_command,
  config_query_command, engage_brake, ReplyMode, ConfigSetValue,
}
use servo_fleet.Commands.ConfigSetCode
use servo_fleet.MotorPvtControl.{
  PvtTarget, PvtLoopStats, Round, no_stats, feedback_max_age, valid_pvt_position,
  run_stable_pvt_loop,
}

abbrev pub settle_duration : ℕ
settle_duration = 1500000000

abbrev pub tune_duration : ℕ
tune_duration = 12000000000

-- What one call of the control loop sees.
pub record Phase (F : Type 0) : Type 0 where
  pub start : ℕ
  pub first_error : FleetErr
  pub rounds : List (Round F)

-- What the tool sees of a motor: the answers of `command` that it looks at, the two samples that it
-- uses with the times at which it looks at them, and the three control loops.
pub record View (F : Type 0) : Type 0 where
  pub limit : Sample (Range F)
  pub limit_now : ℕ
  pub limit_error : FleetErr
  pub brake_error : FleetErr
  pub origin_error : FleetErr
  pub origin : Sample F
  pub origin_now : ℕ
  pub settle : Phase F
  pub tune : Phase F
  pub back : Phase F

module _ {F : Type 0} ⦃fl : Floats F⦄ where
  abbrev pub pi : F
  pi = fl.lit (literal 314159265358979323846 20)

  abbrev pub send_query : ℕ → ConfigQueryCode → Command F fl.Double
  send_query device_id code = config_query_command (record { device_id = device_id; code = code })

  abbrev pub set_limit : ℕ → Range F → Command F fl.Double
  set_limit device_id range = config_set_command (record {
    device_id = device_id;
    code = ConfigSetCode.pvt_current_limit;
    value = ConfigSetValue.float_range_value range;
  })

  abbrev pub print_pvt_limits : ℕ → List (Command F fl.Double)
  print_pvt_limits device_id =
      send_query device_id ConfigQueryCode.pvt_kp_range
      ∷ send_query device_id ConfigQueryCode.pvt_kd_range
      ∷ send_query device_id ConfigQueryCode.pvt_position_limit_r
      ∷ send_query device_id ConfigQueryCode.pvt_velocity_limit_radps
      ∷ send_query device_id ConfigQueryCode.pvt_torque_limit_nm
      ∷ []

  abbrev pub print_feedback : ℕ → List (Command F fl.Double)
  print_feedback device_id =
      send_query device_id ConfigQueryCode.position
      ∷ send_query device_id ConfigQueryCode.velocity
      ∷ send_query device_id ConfigQueryCode.current
      ∷ []

  -- The original limit, and the commands that were sent.
  unfoldable pub set_pvt_current_limit : ℕ → View F → Option (Range F) × List (Command F fl.Double)
  set_pvt_current_limit device_id v =
      let query = send_query device_id ConfigQueryCode.pvt_current_limit in
      let lowered =
        set_limit device_id
          (record { min = fl.lit (neg_literal 8 1); max = fl.lit (literal 8 1) }) in
      if not (fresh v.limit v.limit_now feedback_max_age)
      then (none, query ∷ [])
      else if is_error v.limit_error
      then (none, query ∷ lowered ∷ [])
      else (some v.limit.value, query ∷ lowered ∷ [])

  abbrev pub restore_pvt_current_limit : ℕ → Option (Range F) → List (Command F fl.Double)
  restore_pvt_current_limit device_id none = []
  restore_pvt_current_limit device_id (some limit) = set_limit device_id limit ∷ []

  abbrev pub release_brake : ℕ → View F → Bool × List (Command F fl.Double)
  release_brake device_id v = (
    not (is_error v.brake_error),
    brake_command
          (record { device_id = device_id; control = engage_brake true; reply = ReplyMode.status1 })
        ∷ [],
  )

  abbrev pub stop_motor : ℕ → List (Command F fl.Double)
  stop_motor device_id =
      torque_command (record {
        device_id = device_id;
        torque_nm = fl.lit (literal 0 0);
        reply = ReplyMode.status1;
      })
      ∷ []

  unfoldable pub current_position_r : View F → Option F
  current_position_r v =
      let position_r = fl.fmul v.origin.value (fl.fdiv pi (fl.lit (literal 180 0))) in
      if is_error v.origin_error
      then none
      else if not (fresh v.origin v.origin_now feedback_max_age)
      then none
      else if valid_pvt_position position_r
      then some position_r
      else none

  -- `std::clamp`
  abbrev pub clamp : F → F → F → F
  clamp v lo hi =
      if fl.dlt (fl.widen v) (fl.widen lo)
      then lo
      else if fl.dlt (fl.widen hi) (fl.widen v)
      then hi
      else v

  abbrev pub then_send :
      List (Command F fl.Double)
      → Option (Bool × List (Command F fl.Double))
      → Option (Bool × List (Command F fl.Double))
  then_send sent none = none
  then_send sent (some (ok, more)) = some (ok, sent ++ more)

  -- `if (!loop) return false;` and then the rest.
  abbrev pub if_done :
      Option (Bool × PvtLoopStats × List (PvtCommand F))
      → (PvtLoopStats → Option (Bool × List (Command F fl.Double)))
      → Option (Bool × List (Command F fl.Double))
  if_done none rest = none
  if_done (some (false, stats, sent)) rest = some (false, map pvt_command sent)
  if_done (some (true, stats, sent)) rest = then_send (map pvt_command sent) (rest stats)

  unfoldable pub hold_position :
      ℕ → F → ℕ → Phase F → PvtLoopStats → Option (Bool × PvtLoopStats × List (PvtCommand F))
  unfolding run_stable_pvt_loop
  hold_position device_id position_r hold_duration phase stats =
      run_stable_pvt_loop device_id phase.start
        (λ elapsed. record { position_r = position_r; velocity_radps = fl.lit (literal 0 0) })
        hold_duration phase.first_error phase.rounds stats

  abbrev pub with_cleanup :
      List (Command F fl.Double)
      → List (Command F fl.Double)
      → Option (Bool × List (Command F fl.Double))
      → Option (Bool × List (Command F fl.Double))
  with_cleanup prepared cleanup none = none
  with_cleanup prepared cleanup (some (ok, sent)) = some (ok, (prepared ++ sent) ++ cleanup)

  abbrev pub is_some : Option (Range F) → Bool
  is_some none = false
  is_some (some limit) = true

  -- The functions of the mathematical library, and the cast of a duration to seconds.
  module _ (sin cos : F → F) (seconds : ℕ → F) where
    abbrev pub trajectory : F → ℕ → PvtTarget F
    trajectory origin_r elapsed =
        let amplitude_r = fl.fmul (fl.lit (literal 3 0)) (fl.fdiv pi (fl.lit (literal 180 0))) in
        let omega_radps = fl.fmul (fl.fmul (fl.lit (literal 2 0)) pi) (fl.lit (literal 1 1)) in
        let t = seconds elapsed in
        record {
          position_r = fl.fadd origin_r (fl.fmul amplitude_r (sin (fl.fmul omega_radps t)));
          velocity_radps =
              clamp (fl.fmul (fl.fmul amplitude_r omega_radps) (cos (fl.fmul omega_radps t)))
                (fl.lit (neg_literal 35 2)) (fl.lit (literal 35 2));
        }

    unfoldable pub run_from_origin : ℕ → View F → F → Option (Bool × List (Command F fl.Double))
    unfolding hold_position run_stable_pvt_loop
    run_from_origin device_id v origin_r =
        if_done (hold_position device_id origin_r settle_duration v.settle no_stats) (λ stats.
          if_done
            (run_stable_pvt_loop device_id v.tune.start (trajectory origin_r) tune_duration
              v.tune.first_error v.tune.rounds stats)
            (λ stats'.
              if_done (hold_position device_id origin_r settle_duration v.back stats')
                (λ stats''. some (true, []))))

    unfoldable pub run_pvt_tuning : ℕ → View F → Option (Bool × List (Command F fl.Double))
    unfolding run_from_origin current_position_r
    run_pvt_tuning device_id v =
        then_send (send_query device_id ConfigQueryCode.position ∷ [])
          (elim (current_position_r v) [
            | none ↦ some (false, [])
            | some origin_r ↦ run_from_origin device_id v origin_r
          ])

    -- The body of the loop over the motors in `run`: whether the motor passed, and all the commands
    -- that were sent.
    unfoldable pub run_motor : ℕ → View F → Option (Bool × List (Command F fl.Double))
    unfolding set_pvt_current_limit run_pvt_tuning
    run_motor device_id v =
        let (limit, limit_sent) = set_pvt_current_limit device_id v in
        let (released, brake_sent) = release_brake device_id v in
        let tuned = run_pvt_tuning device_id v in
        with_cleanup
          (print_pvt_limits device_id ++ limit_sent ++ print_feedback device_id ++ brake_sent)
          (stop_motor device_id
            ++ restore_pvt_current_limit device_id limit
            ++ print_feedback device_id)
          (if is_some limit && released then tuned else some (false, []))
