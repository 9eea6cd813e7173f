-- ===== src/MotorPvtControl/Run.antt =====
-- pvt/motor_pvt_control.cc: the run of the PVT tool over all its motors.
use servo_fleet.Prelude.{
  ℕ, ◌≡◌, ◌&&◌, ◌==◌, not, if◌then◌else◌, Bool, true, List, [], ◌∷◌, ◌++◌, length, Option, none,
  some,
}
use servo_fleet.Error.{FleetErr, is_error}
use servo_fleet.Floats.{Floats}
use servo_fleet.Commands.{Command}
use servo_fleet.MotorPvtControl.Session.{View, run_motor}
use servo_fleet.MotorPvtControl.Cleanup.{Sends}

module _ {F : Type 0} ⦃fl : Floats F⦄ where
  -- One motor, and then the others.
  abbrev followed :
      Option (Bool × List (Command F fl.Double))
      → Option (Bool × List (Command F fl.Double))
      → Option (Bool × List (Command F fl.Double))
  followed none rest = none
  followed (some (ok, sent)) none = none
  followed (some (ok, sent)) (some (others_ok, more)) = some (ok && others_ok, sent ++ more)

  abbrev exit_code :
      Option (Bool × List (Command F fl.Double)) → Option (ℕ × List (Command F fl.Double))
  exit_code none = none
  exit_code (some (ok, sent)) = some (if ok then 0 else 1, sent)

  -- What a run says and sends for its motors: the run is well if every motor is, and each motor is
  -- sent what `Sends` promises, one after the other.
  abbrev pub RunSends : List (ℕ × View F) → Bool → List (Command F fl.Double) → Type 0
  RunSends [] ok sent = (ok ≡ true) × (sent ≡ [])
  RunSends ((device_id, v) ∷ motors) ok sent =
      (motor_ok others_ok : Bool) × (here there : List (Command F fl.Double)) × (ok
        ≡ (motor_ok && others_ok))
      × (sent ≡ here ++ there)
      × Sends device_id v (some (motor_ok, here))
      × RunSends motors others_ok there

  module _ (sin cos : F → F) (seconds : ℕ → F) where
    -- The loop of `run` over the motors, each with its identifier and what the tool sees of it.
    unfoldable pub run_motors : List (ℕ × View F) → Option (Bool × List (Command F fl.Double))
    unfolding run_motor
    run_motors [] = some (true, [])
    run_motors ((device_id, v) ∷ motors) =
        followed (run_motor sin cos seconds device_id v) (run_motors motors)

    -- `run`: the exit code and the commands, from the answer of `init`, the number of motors of the
    -- configuration, and the motors that `lookup` finds.
    unfoldable pub run : FleetErr → ℕ → List (ℕ × View F) → Option (ℕ × List (Command F fl.Double))
    unfolding run_motors
    run init_error configured motors =
        if is_error init_error
        then some (1, [])
        else if not (length motors == configured)
        then some (1, [])
        else exit_code (run_motors motors)
