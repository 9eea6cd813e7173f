-- ===== src/MotorPvtControl/Late.antt =====
-- What the PVT tool does if it looks at the original current limit too late.
use servo_fleet.Prelude.{ℕ, ◌+◌, ◌<◌, ◌≡◌, refl, arith, false, List, [], ◌∷◌, ◌++◌, none, some, All}
use servo_fleet.Feedback.{ConfigQueryCode}
use servo_fleet.Floats.{Floats}
use servo_fleet.Device.{fresh, received}
use servo_fleet.Commands.{Command}
use servo_fleet.MotorPvtControl.{feedback_max_age}
use servo_fleet.MotorPvtControl.Session.{
  View, send_query, print_pvt_limits, print_feedback, set_pvt_current_limit, release_brake,
  stop_motor, run_motor,
}
use servo_fleet.MotorPvtControl.Safe.{is_pvt}

module _ {F : Type 0} ⦃fl : Floats F⦄ where
  abbrev NoPvt : List (Command F fl.Double) → Type 0
  NoPvt sent = All (λ c. is_pvt c ≡ false) sent

  set_pvt_current_limit-late :
      (device_id : ℕ) (v : View F)
      → v.limit.time + feedback_max_age < v.limit_now
      → set_pvt_current_limit device_id v
        ≡ (none, send_query device_id ConfigQueryCode.pvt_current_limit ∷ [])
  unfolding set_pvt_current_limit fresh received
  set_pvt_current_limit-late device_id v late = ground arith

-- If the sample of the current limit is more than two milliseconds old when the tool looks at it,
-- the session ends, the motor has failed, and none of the commands it was sent is a PVT command.
pub run_motor-late :
    {F : Type 0} ⦃fl : Floats F⦄ (sin cos : F → F) (seconds : ℕ → F) (device_id : ℕ) (v : View F)
    → v.limit.time + feedback_max_age < v.limit_now
    → (sent : List (Command F fl.Double)) × (run_motor sin cos seconds device_id v
        ≡ some (false, sent))
      × All (λ c. is_pvt c ≡ false) sent
unfolding run_motor
run_motor-late sin cos seconds device_id v late =
    let eq = set_pvt_current_limit-late device_id v late in
    (
      print_pvt_limits device_id
          ++ (send_query device_id ConfigQueryCode.pvt_current_limit ∷ [])
          ++ print_feedback device_id
          ++ (release_brake device_id v).1
          ++ []
          ++ (stop_motor device_id ++ [] ++ print_feedback device_id),
      rw eq refl,
      (
        refl,
        (
          refl,
          (
            refl,
            (
              refl,
              (refl, (refl, (refl, (refl, (refl, (refl, (refl, (refl, (refl, (refl, tt)))))))))),
            ),
          ),
        ),
      ),
    )
