-- ===== src/Commands/ConfigSetCode.antt =====
-- include/fleet/device_motor.h: the bytes of `config_set_code`.
use servo_fleet.Prelude.{ℕ}

abbrev pub accel : ℕ
accel = 0x01

abbrev pub comm_mode : ℕ
comm_mode = 0x02

abbrev pub torque_ratio : ℕ
torque_ratio = 0x04

abbrev pub pvt_kp : ℕ
pvt_kp = 0x05

abbrev pub pvt_kd : ℕ
pvt_kd = 0x06

abbrev pub pvt_position_limit_r : ℕ
pvt_position_limit_r = 0x07

abbrev pub pvt_velocity_limit_radps : ℕ
pvt_velocity_limit_radps = 0x08

abbrev pub pvt_torque_limit_nm : ℕ
pvt_torque_limit_nm = 0x09

abbrev pub pvt_current_limit : ℕ
pvt_current_limit = 0x0a

abbrev pub can_timeout : ℕ
can_timeout = 0x0b

abbrev pub current_loop_pi : ℕ
current_loop_pi = 0x0c

abbrev pub velocity_loop_pi : ℕ
velocity_loop_pi = 0x0d

abbrev pub position_loop_pd : ℕ
position_loop_pd = 0x0e
