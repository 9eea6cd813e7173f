-- ===== src/MotorPvtControl/Tests.antt =====
-- A motor that answers in time, with whole numbers for the floats.
use servo_fleet.Prelude.{
  ℕ, ◌≡◌, refl, arith, not, ◌&&◌, List, [], ◌∷◌, replicate, length-replicate, All, some, false,
}
use servo_fleet.Error.{FleetErr, is_error}
use servo_fleet.Feedback.{MotorErr}
use servo_fleet.Floats.{ℤ, pos, ltb_int}
use servo_fleet.Floats.Whole.{whole_floats}
use servo_fleet.Device.{
  set_sample, PvtFeedbackSnapshot, snapshot_fresh, fresh, coherent, all_received, received,
}
use servo_fleet.MotorPvtControl.{PvtTarget, Round, no_stats, order, valid_pvt_position}
use servo_fleet.MotorPvtControl.Counting.{executed, orders_of}
use servo_fleet.MotorPvtControl.Loop.{Promised, run_stable_pvt_loop_lem}
use servo_fleet.MotorPvtControl.Session.{View, Phase, run_motor}
use servo_fleet.MotorPvtControl.Late.{run_motor-late}
use servo_fleet.Commands.{Command}
use servo_fleet.MotorPvtControl.Safe.{is_pvt, EnoughRounds}

abbrev seen_at : ℕ → PvtFeedbackSnapshot ℤ
seen_at time = record {
  error = set_sample MotorErr.none time 1;
  position_deg = set_sample (pos 0) time 1;
  velocity_rpm = set_sample (pos 0) time 1;
  current = set_sample (pos 0) time 1;
}

-- A round that wakes up at a time, with feedback of another.
abbrev round_at : ℕ → ℕ → Round ℤ
round_at now seen = record {
  woke_at = now;
  snapshot = seen_at seen;
  error = FleetErr.ok;
  finished_at = now;
}

abbrev target : ℕ → PvtTarget ℤ
target elapsed = record { position_r = pos 7; velocity_radps = pos 0 }

-- The first round has fresh feedback, the other two have the same again, and it is stale.
abbrev three_rounds : List (Round ℤ)
three_rounds = round_at 2500000 2000000 ∷ round_at 5000000 2000000 ∷ round_at 7500000 2000000 ∷ []

run_stable_pvt_loop_lem_example :
    Promised 4 0 target
      (valid_pvt_position (pos 7) && not (is_error FleetErr.ok))
      7500000
      FleetErr.ok
      three_rounds
      no_stats
run_stable_pvt_loop_lem_example =
    run_stable_pvt_loop_lem 4 0 target 7500000 FleetErr.ok three_rounds no_stats (omega arith)
      (omega arith)

-- Of the three rounds, only the first sends an order.
one_order : orders_of 4 0 target (executed 4 0 target 3 0 three_rounds) ≡ order 4 (target 0) ∷ []
unfolding snapshot_fresh fresh coherent all_received received valid_pvt_position ltb_int
one_order = refl

abbrev phase : ℕ → Phase ℤ
phase n = record { start = 0; first_error = FleetErr.ok; rounds = replicate n (round_at 1 1) }

abbrev view : View ℤ
view = record {
  limit = set_sample (record { min = pos 0; max = pos 3 }) 5 1;
  limit_now = 6;
  limit_error = FleetErr.ok;
  brake_error = FleetErr.ok;
  origin_error = FleetErr.ok;
  origin = set_sample (pos 0) 5 2;
  origin_now = 6;
  settle = phase 600;
  tune = phase 4800;
  back = phase 600;
}

abbrev enough : EnoughRounds view
enough = (
  omega (arith, length-replicate 600 (round_at 1 1)),
  omega (arith, length-replicate 4800 (round_at 1 1)),
  omega (arith, length-replicate 600 (round_at 1 1)),
)

abbrev two_motors : List (ℕ × View ℤ)
two_motors = (4, view) ∷ (5, view) ∷ []

-- The answer came at once, and the tool looks at it a tenth of a second later.
abbrev late_view : View ℤ
late_view = record view { limit_now = 100000005 }

run_motor-late_example :
    (sent : List (Command ℤ ℤ)) × (run_motor (λ x. x) (λ x. x) pos 4 late_view ≡ some (false, sent))
    × All (λ c. is_pvt c ≡ false) sent
run_motor-late_example = run_motor-late (λ x. x) (λ x. x) pos 4 late_view (omega arith)
