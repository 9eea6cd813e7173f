-- ===== src/Specs/Planetary.antt =====
-- src/driver_motor.cc: the planetary and the high-torque rows of the table of motor models.
use servo_fleet.Prelude.{[], ◌∷◌}
use servo_fleet.Floats.{literal}
use servo_fleet.Specs.Row.{MotorEcSpec, between, up_to}

-- EC-A2806-P2-36
abbrev pub ec_a2806_p2_36 : MotorEcSpec
ec_a2806_p2_36 = record {
  model = 69 ∷ 67 ∷ 45 ∷ 65 ∷ 50 ∷ 56 ∷ 48 ∷ 54 ∷ 45 ∷ 80 ∷ 50 ∷ 45 ∷ 51 ∷ 54 ∷ [];
  kp = up_to 500;
  kd = up_to 5;
  speed_rad = between 18 0;
  pos_rad = between 125 1;
  torque_nm = between 12 0;
  current_a = between 10 0;
  kt = literal 135 2;
  inertia = literal 426 2;
}

-- EC-A4310-P2-36
abbrev pub ec_a4310_p2_36 : MotorEcSpec
ec_a4310_p2_36 = record {
  model = 69 ∷ 67 ∷ 45 ∷ 65 ∷ 52 ∷ 51 ∷ 49 ∷ 48 ∷ 45 ∷ 80 ∷ 50 ∷ 45 ∷ 51 ∷ 54 ∷ [];
  kp = up_to 500;
  kd = up_to 5;
  speed_rad = between 18 0;
  pos_rad = between 125 1;
  torque_nm = between 30 0;
  current_a = between 30 0;
  kt = literal 14 1;
  inertia = literal 19 0;
}

-- EC-A4315-P2-36
abbrev pub ec_a4315_p2_36 : MotorEcSpec
ec_a4315_p2_36 = record {
  model = 69 ∷ 67 ∷ 45 ∷ 65 ∷ 52 ∷ 51 ∷ 49 ∷ 53 ∷ 45 ∷ 80 ∷ 50 ∷ 45 ∷ 51 ∷ 54 ∷ [];
  kp = up_to 500;
  kd = up_to 5;
  speed_rad = between 18 0;
  pos_rad = between 125 1;
  torque_nm = between 70 0;
  current_a = between 30 0;
  kt = literal 28 1;
  inertia = literal 25 0;
}

-- EC-A6408-P2-25
abbrev pub ec_a6408_p2_25 : MotorEcSpec
ec_a6408_p2_25 = record {
  model = 69 ∷ 67 ∷ 45 ∷ 65 ∷ 54 ∷ 52 ∷ 48 ∷ 56 ∷ 45 ∷ 80 ∷ 50 ∷ 45 ∷ 50 ∷ 53 ∷ [];
  kp = up_to 500;
  kd = up_to 5;
  speed_rad = between 18 0;
  pos_rad = between 125 1;
  torque_nm = between 60 0;
  current_a = between 60 0;
  kt = literal 235 2;
  inertia = literal 62 0;
}

-- EC-A6416-P2-25
abbrev pub ec_a6416_p2_25 : MotorEcSpec
ec_a6416_p2_25 = record {
  model = 69 ∷ 67 ∷ 45 ∷ 65 ∷ 54 ∷ 52 ∷ 49 ∷ 54 ∷ 45 ∷ 80 ∷ 50 ∷ 45 ∷ 50 ∷ 53 ∷ [];
  kp = up_to 500;
  kd = up_to 5;
  speed_rad = between 18 0;
  pos_rad = between 125 1;
  torque_nm = between 120 0;
  current_a = between 60 0;
  kt = literal 274 2;
  inertia = literal 104 0;
}

-- EC-A8112-P1-18
abbrev pub ec_a8112_p1_18 : MotorEcSpec
ec_a8112_p1_18 = record {
  model = 69 ∷ 67 ∷ 45 ∷ 65 ∷ 56 ∷ 49 ∷ 49 ∷ 50 ∷ 45 ∷ 80 ∷ 49 ∷ 45 ∷ 49 ∷ 56 ∷ [];
  kp = up_to 500;
  kd = up_to 5;
  speed_rad = between 18 0;
  pos_rad = between 125 1;
  torque_nm = between 90 0;
  current_a = between 60 0;
  kt = literal 21 1;
  inertia = literal 149 0;
}

-- EC-A8116-P1-18
abbrev pub ec_a8116_p1_18 : MotorEcSpec
ec_a8116_p1_18 = record {
  model = 69 ∷ 67 ∷ 45 ∷ 65 ∷ 56 ∷ 49 ∷ 49 ∷ 54 ∷ 45 ∷ 80 ∷ 49 ∷ 45 ∷ 49 ∷ 56 ∷ [];
  kp = up_to 500;
  kd = up_to 5;
  speed_rad = between 18 0;
  pos_rad = between 125 1;
  torque_nm = between 150 0;
  current_a = between 70 0;
  kt = literal 235 2;
  inertia = literal 189 0;
}

-- EC-A10020-P1-12/6
abbrev pub ec_a10020_p1_12_6 : MotorEcSpec
ec_a10020_p1_12_6 = record {
  model = 69 ∷ 67 ∷ 45 ∷ 65 ∷ 49 ∷ 48 ∷ 48 ∷ 50 ∷ 48 ∷ 45 ∷ 80 ∷ 49 ∷ 45 ∷ 49 ∷ 50 ∷ 47 ∷ 54 ∷ [];
  kp = up_to 500;
  kd = up_to 50;
  speed_rad = between 18 0;
  pos_rad = between 125 1;
  torque_nm = between 150 0;
  current_a = between 70 0;
  kt = literal 25 1;
  inertia = literal 485 0;
}

-- EC-A13720-P1-11.4
abbrev pub ec_a13720_p1_11_4 : MotorEcSpec
ec_a13720_p1_11_4 = record {
  model = 69 ∷ 67 ∷ 45 ∷ 65 ∷ 49 ∷ 51 ∷ 55 ∷ 50 ∷ 48 ∷ 45 ∷ 80 ∷ 49 ∷ 45 ∷ 49 ∷ 49 ∷ 46 ∷ 52 ∷ [];
  kp = up_to 500;
  kd = up_to 50;
  speed_rad = between 18 0;
  pos_rad = between 125 1;
  torque_nm = between 400 0;
  current_a = between 220 0;
  kt = literal 25 1;
  inertia = literal 1514 0;
}

-- EC-A13715-P1-12.67
abbrev pub ec_a13715_p1_12_67 : MotorEcSpec
ec_a13715_p1_12_67 = record {
  model =
      69 ∷ 67 ∷ 45 ∷ 65 ∷ 49 ∷ 51 ∷ 55 ∷ 49 ∷ 53 ∷ 45 ∷ 80 ∷ 49 ∷ 45 ∷ 49 ∷ 50 ∷ 46 ∷ 54 ∷ 55 ∷ [];
  kp = up_to 500;
  kd = up_to 50;
  speed_rad = between 18 0;
  pos_rad = between 125 1;
  torque_nm = between 320 0;
  current_a = between 220 0;
  kt = literal 25 1;
  inertia = literal 1237 0;
}
