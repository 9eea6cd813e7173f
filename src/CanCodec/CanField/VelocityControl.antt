-- ===== src/CanCodec/CanField/VelocityControl.antt =====
-- src/codec_can.h: the fields of `can_field::velocity_control`.
use servo_fleet.BitCodec.{Bits}

abbrev pub mode : Bits
mode = record { offset = 0; len = 3 }

abbrev pub reserved : Bits
reserved = record { offset = 3; len = 3 }

abbrev pub reply : Bits
reply = record { offset = 6; len = 2 }

abbrev pub rpm : Bits
rpm = record { offset = 8; len = 32 }

abbrev pub current_amp_x10 : Bits
current_amp_x10 = record { offset = 40; len = 16 }
