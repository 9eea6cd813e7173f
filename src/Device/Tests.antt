-- ===== src/Device/Tests.antt =====
-- A new device, with numbers for its floats.
use servo_fleet.Prelude.{ℕ, ◌≡◌, arith, [], ◌∷◌, none, some, List}
use servo_fleet.Feedback.{
  MotorErr, McuUuidFragment, StatusFeedback, Feedback, query_feedback, ConfigQueryCode,
}
use servo_fleet.Floats.{ℤ, pos}
use servo_fleet.Floats.Whole.{whole_floats}
use servo_fleet.CanCodec.Examples.{blank}
use servo_fleet.Specs.{ec_a2806_p2_36}
use servo_fleet.Device.Ranges.{
  ranges-applied_all, applied_all, pvt_kp_range, pvt_kd_range, pvt_position_limit_r, shown, or_row,
}

abbrev first_status : StatusFeedback ℕ
first_status = record {
  error = MotorErr.over_temp;
  position_r = 3;
  velocity_radps = 4;
  current = 5;
  motor_temp_c = 60;
  mosfet_temp_c = 61;
}

abbrev second : McuUuidFragment
second = record { index = 2; bytes = 5 ∷ 6 ∷ 7 ∷ 8 ∷ [] }

abbrev stray : McuUuidFragment
stray = record { index = 4; bytes = 9 ∷ 9 ∷ 9 ∷ 9 ∷ [] }

abbrev kp_answer : Feedback ℤ
kp_answer = query_feedback (record blank {
  code = ConfigQueryCode.pvt_kp_range;
  pvt_kp_range = record { min = pos 1; max = pos 7 };
})

-- One answer about the first range, and one about the position after it.
abbrev history : List (Feedback ℤ × ℕ)
history = (query_feedback blank, 6) ∷ (kp_answer, 5) ∷ []

ranges-applied_all_example :
    (shown (pvt_kp_range ℤ (some ec_a2806_p2_36) 9 (applied_all (λ x. x) (λ x. x) (pos 0) history))
      ≡ some (record { min = pos 1; max = pos 7 }))
    × (shown
          (pvt_kd_range ℤ (some ec_a2806_p2_36) 9 (applied_all (λ x. x) (λ x. x) (pos 0) history))
        ≡ some (record { min = pos 0; max = pos 5 }))
    × (shown (
          pvt_position_limit_r ℤ
            (some ec_a2806_p2_36)
            9
            (applied_all (λ x. x) (λ x. x) (pos 0) history))
        ≡ or_row ℤ (λ spec. spec.pos_rad) (some ec_a2806_p2_36) none)
ranges-applied_all_example =
    ranges-applied_all (λ x. x) (λ x. x) (pos 0) (some ec_a2806_p2_36) 9 history (omega arith)
