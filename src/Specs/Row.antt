-- ===== src/Specs/Row.antt =====
-- src/driver_motor.cc: a row of the table of motor models. A model's name is the list of its bytes, and
-- a number is the decimal literal of the source.
use servo_fleet.Prelude.{ℕ, List}
use servo_fleet.Feedback.{Range}
use servo_fleet.Floats.{Literal, literal, neg_literal}

pub record MotorEcSpec : Type 0 where
  pub model : List ℕ
  pub kp : Range Literal
  pub kd : Range Literal
  pub speed_rad : Range Literal
  pub pos_rad : Range Literal
  pub torque_nm : Range Literal
  pub current_a : Range Literal
  pub kt : Literal
  pub inertia : Literal

-- `min` and `max` of a range that lies about 0.
abbrev pub between : ℕ → ℕ → Range Literal
between digits places = record { min = neg_literal digits places; max = literal digits places }

abbrev pub up_to : ℕ → Range Literal
up_to digits = record { min = literal 0 0; max = literal digits 0 }
