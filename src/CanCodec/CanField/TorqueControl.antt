-- ===== src/CanCodec/CanField/TorqueControl.antt =====
-- src/codec_can.h: the fields of `can_field::torque_control`.
use servo_fleet.BitCodec.{Bits}

abbrev pub mode : Bits
mode = record { offset = 0; len = 3 }

abbrev pub state : Bits
state = record { offset = 3; len = 3 }

abbrev pub reply : Bits
reply = record { offset = 6; len = 2 }

abbrev pub value : Bits
value = record { offset = 8; len = 16 }
