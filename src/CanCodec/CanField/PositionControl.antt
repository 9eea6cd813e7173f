-- ===== src/CanCodec/CanField/PositionControl.antt =====
-- src/codec_can.h: the fields of `can_field::position_control`.
use servo_fleet.BitCodec.{Bits}

abbrev pub mode : Bits
mode = record { offset = 0; len = 3 }

abbrev pub position_deg : Bits
position_deg = record { offset = 3; len = 32 }

abbrev pub velocity_rpm_x10 : Bits
velocity_rpm_x10 = record { offset = 35; len = 15 }

abbrev pub current_amp_x10 : Bits
current_amp_x10 = record { offset = 50; len = 12 }

abbrev pub reply : Bits
reply = record { offset = 62; len = 2 }
