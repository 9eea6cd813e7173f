-- ===== src/Specs/Tests.antt =====
-- Names that the table knows, and one that it does not.
use servo_fleet.Prelude.{[], ◌∷◌, none, some, length, ◌≡◌, refl}
use servo_fleet.Specs.{
  MotorEcSpec, ec_motor_table, find_motor_ec_spec, find_spec, same_model, between, up_to,
}
use servo_fleet.Floats.{literal}
use servo_fleet.Specs.Lookup.{find_motor_ec_spec-entry}

twenty_one : length ec_motor_table ≡ 21
twenty_one = refl

unknown : find_motor_ec_spec (69 ∷ 67 ∷ []) ≡ none
unfolding find_motor_ec_spec find_spec same_model
unknown = refl

-- EC-A13715-P1-12.67.
abbrev tenth : MotorEcSpec
tenth = record {
  model =
      69 ∷ 67 ∷ 45 ∷ 65 ∷ 49 ∷ 51 ∷ 55 ∷ 49 ∷ 53 ∷ 45 ∷ 80 ∷ 49 ∷ 45 ∷ 49 ∷ 50 ∷ 46 ∷ 54 ∷ 55 ∷ [];
  kp = up_to 500;
  kd = up_to 50;
  speed_rad = between 18 0;
  pos_rad = between 125 1;
  torque_nm = between 320 0;
  current_a = between 220 0;
  kt = literal 25 1;
  inertia = literal 1237 0;
}

find_motor_ec_spec-entry_example : find_motor_ec_spec tenth.model ≡ some tenth
find_motor_ec_spec-entry_example = find_motor_ec_spec-entry 9 tenth refl
