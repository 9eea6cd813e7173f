-- ===== src/Specs/Hollow.antt =====
-- src/driver_motor.cc: the rows of the table for hollow shafts and for harmonic gears.
use servo_fleet.Prelude.{[], ◌∷◌}
use servo_fleet.Floats.{literal}
use servo_fleet.Specs.Row.{MotorEcSpec, between, up_to}

-- EC-A4310-P2-36H
abbrev pub ec_a4310_p2_36h : MotorEcSpec
ec_a4310_p2_36h = record {
  model = 69 ∷ 67 ∷ 45 ∷ 65 ∷ 52 ∷ 51 ∷ 49 ∷ 48 ∷ 45 ∷ 80 ∷ 50 ∷ 45 ∷ 51 ∷ 54 ∷ 72 ∷ [];
  kp = up_to 500;
  kd = up_to 5;
  speed_rad = between 18 0;
  pos_rad = between 125 1;
  torque_nm = between 30 0;
  current_a = between 30 0;
  kt = literal 14 1;
  inertia = literal 18 0;
}

-- EC-A6408-P2-16H
abbrev pub ec_a6408_p2_16h : MotorEcSpec
ec_a6408_p2_16h = record {
  model = 69 ∷ 67 ∷ 45 ∷ 65 ∷ 54 ∷ 52 ∷ 48 ∷ 56 ∷ 45 ∷ 80 ∷ 50 ∷ 45 ∷ 49 ∷ 54 ∷ 72 ∷ [];
  kp = up_to 500;
  kd = up_to 5;
  speed_rad = between 18 0;
  pos_rad = between 125 1;
  torque_nm = between 45 0;
  current_a = between 30 0;
  kt = literal 215 2;
  inertia = literal 62581 3;
}

-- EC-A6408-P2-30.25H
abbrev pub ec_a6408_p2_30_25h : MotorEcSpec
ec_a6408_p2_30_25h = record {
  model =
      69 ∷ 67 ∷ 45 ∷ 65 ∷ 54 ∷ 52 ∷ 48 ∷ 56 ∷ 45 ∷ 80 ∷ 50 ∷ 45 ∷ 51 ∷ 48 ∷ 46 ∷ 50 ∷ 53 ∷ 72 ∷ [];
  kp = up_to 500;
  kd = up_to 5;
  speed_rad = between 18 0;
  pos_rad = between 125 1;
  torque_nm = between 60 0;
  current_a = between 60 0;
  kt = literal 245 2;
  inertia = literal 63 0;
}

-- EC-A6408-P2-30.25HB
abbrev pub ec_a6408_p2_30_25hb : MotorEcSpec
ec_a6408_p2_30_25hb = record {
  model =
      69 ∷ 67 ∷ 45 ∷ 65 ∷ 54 ∷ 52 ∷ 48 ∷ 56 ∷ 45 ∷ 80 ∷ 50 ∷ 45 ∷ 51 ∷ 48 ∷ 46 ∷ 50 ∷ 53 ∷ 72 ∷ 66
      ∷ [];
  kp = up_to 500;
  kd = up_to 5;
  speed_rad = between 18 0;
  pos_rad = between 125 1;
  torque_nm = between 60 0;
  current_a = between 60 0;
  kt = literal 220 2;
  inertia = literal 74 0;
}

-- EC-A6416-P2-30.25H
abbrev pub ec_a6416_p2_30_25h : MotorEcSpec
ec_a6416_p2_30_25h = record {
  model =
      69 ∷ 67 ∷ 45 ∷ 65 ∷ 54 ∷ 52 ∷ 49 ∷ 54 ∷ 45 ∷ 80 ∷ 50 ∷ 45 ∷ 51 ∷ 48 ∷ 46 ∷ 50 ∷ 53 ∷ 72 ∷ [];
  kp = up_to 500;
  kd = up_to 5;
  speed_rad = between 18 0;
  pos_rad = between 125 1;
  torque_nm = between 120 0;
  current_a = between 60 0;
  kt = literal 265 2;
  inertia = literal 102678 3;
}

-- EC-A8112-P1-18H
abbrev pub ec_a8112_p1_18h : MotorEcSpec
ec_a8112_p1_18h = record {
  model = 69 ∷ 67 ∷ 45 ∷ 65 ∷ 56 ∷ 49 ∷ 49 ∷ 50 ∷ 45 ∷ 80 ∷ 49 ∷ 45 ∷ 49 ∷ 56 ∷ 72 ∷ [];
  kp = up_to 500;
  kd = up_to 5;
  speed_rad = between 18 0;
  pos_rad = between 125 1;
  torque_nm = between 90 0;
  current_a = between 60 0;
  kt = literal 21 1;
  inertia = literal 98 0;
}

-- EC-A8116-P1-18H
abbrev pub ec_a8116_p1_18h : MotorEcSpec
ec_a8116_p1_18h = record {
  model = 69 ∷ 67 ∷ 45 ∷ 65 ∷ 56 ∷ 49 ∷ 49 ∷ 54 ∷ 45 ∷ 80 ∷ 49 ∷ 45 ∷ 49 ∷ 56 ∷ 72 ∷ [];
  kp = up_to 500;
  kd = up_to 5;
  speed_rad = between 18 0;
  pos_rad = between 125 1;
  torque_nm = between 130 0;
  current_a = between 70 0;
  kt = literal 235 2;
  inertia = literal 197 0;
}

-- EC-A10020-P2-24
abbrev pub ec_a10020_p2_24 : MotorEcSpec
ec_a10020_p2_24 = record {
  model = 69 ∷ 67 ∷ 45 ∷ 65 ∷ 49 ∷ 48 ∷ 48 ∷ 50 ∷ 48 ∷ 45 ∷ 80 ∷ 50 ∷ 45 ∷ 50 ∷ 52 ∷ [];
  kp = up_to 500;
  kd = up_to 50;
  speed_rad = between 18 0;
  pos_rad = between 125 1;
  torque_nm = between 300 0;
  current_a = between 140 0;
  kt = literal 26 1;
  inertia = literal 477 0;
}

-- EC-A3814-H14-107
abbrev pub ec_a3814_h14_107 : MotorEcSpec
ec_a3814_h14_107 = record {
  model = 69 ∷ 67 ∷ 45 ∷ 65 ∷ 51 ∷ 56 ∷ 49 ∷ 52 ∷ 45 ∷ 72 ∷ 49 ∷ 52 ∷ 45 ∷ 49 ∷ 48 ∷ 55 ∷ [];
  kp = up_to 500;
  kd = up_to 5;
  speed_rad = between 18 0;
  pos_rad = between 125 1;
  torque_nm = between 60 0;
  current_a = between 20 0;
  kt = literal 42 1;
  inertia = literal 3 0;
}

-- EC-A5013-H17-100
abbrev pub ec_a5013_h17_100 : MotorEcSpec
ec_a5013_h17_100 = record {
  model = 69 ∷ 67 ∷ 45 ∷ 65 ∷ 53 ∷ 48 ∷ 49 ∷ 51 ∷ 45 ∷ 72 ∷ 49 ∷ 55 ∷ 45 ∷ 49 ∷ 48 ∷ 48 ∷ [];
  kp = up_to 500;
  kd = up_to 5;
  speed_rad = between 18 0;
  pos_rad = between 125 1;
  torque_nm = between 90 0;
  current_a = between 30 0;
  kt = literal 59 1;
  inertia = literal 10 0;
}

-- EC-A6013-H20-100
abbrev pub ec_a6013_h20_100 : MotorEcSpec
ec_a6013_h20_100 = record {
  model = 69 ∷ 67 ∷ 45 ∷ 65 ∷ 54 ∷ 48 ∷ 49 ∷ 51 ∷ 45 ∷ 72 ∷ 50 ∷ 48 ∷ 45 ∷ 49 ∷ 48 ∷ 48 ∷ [];
  kp = up_to 500;
  kd = up_to 5;
  speed_rad = between 18 0;
  pos_rad = between 125 1;
  torque_nm = between 130 0;
  current_a = between 35 0;
  kt = literal 56 1;
  inertia = literal 24 0;
}
