-- ===== src/Specs.antt =====
-- src/driver_motor.cc: the table of the motor models and the search in it.
mod Row
mod Planetary
mod Hollow
pub mod Lookup
mod Tests
use servo_fleet.Prelude.{
  ℕ, ◌==◌, ◌&&◌, if◌then◌else◌, Bool, true, false, List, [], ◌∷◌, Option, none, some,
}
pub use servo_fleet.Specs.Row.{MotorEcSpec, between, up_to}
pub use servo_fleet.Specs.Planetary.{ec_a2806_p2_36}
use servo_fleet.Specs.Planetary.{
  ec_a4310_p2_36, ec_a4315_p2_36, ec_a6408_p2_25, ec_a6416_p2_25, ec_a8112_p1_18, ec_a8116_p1_18,
  ec_a10020_p1_12_6, ec_a13720_p1_11_4, ec_a13715_p1_12_67,
}
use servo_fleet.Specs.Hollow.{
  ec_a4310_p2_36h, ec_a6408_p2_16h, ec_a6408_p2_30_25h, ec_a6408_p2_30_25hb, ec_a6416_p2_30_25h,
  ec_a8112_p1_18h, ec_a8116_p1_18h, ec_a10020_p2_24, ec_a3814_h14_107, ec_a5013_h17_100,
  ec_a6013_h20_100,
}

abbrev pub ec_motor_table : List MotorEcSpec
ec_motor_table =
    ec_a2806_p2_36 ∷ ec_a4310_p2_36 ∷ ec_a4315_p2_36 ∷ ec_a6408_p2_25 ∷ ec_a6416_p2_25
    ∷ ec_a8112_p1_18 ∷ ec_a8116_p1_18 ∷ ec_a10020_p1_12_6 ∷ ec_a13720_p1_11_4 ∷ ec_a13715_p1_12_67
    ∷ ec_a4310_p2_36h ∷ ec_a6408_p2_16h ∷ ec_a6408_p2_30_25h ∷ ec_a6408_p2_30_25hb
    ∷ ec_a6416_p2_30_25h ∷ ec_a8112_p1_18h ∷ ec_a8116_p1_18h ∷ ec_a10020_p2_24 ∷ ec_a3814_h14_107
    ∷ ec_a5013_h17_100 ∷ ec_a6013_h20_100 ∷ []

unfoldable pub same_model : List ℕ → List ℕ → Bool
same_model [] [] = true
same_model [] (y ∷ ys) = false
same_model (x ∷ xs) [] = false
same_model (x ∷ xs) (y ∷ ys) = x == y && same_model xs ys

-- `std::ranges::find` with the projection `model`.
unfoldable pub find_spec : List MotorEcSpec → List ℕ → Option MotorEcSpec
find_spec [] model = none
find_spec (spec ∷ specs) model =
    let later = find_spec specs model in if same_model spec.model model then some spec else later

-- `none` is a null pointer.
unfoldable pub find_motor_ec_spec : List ℕ → Option MotorEcSpec
find_motor_ec_spec [] = none
find_motor_ec_spec (c ∷ model) = find_spec ec_motor_table (c ∷ model)
