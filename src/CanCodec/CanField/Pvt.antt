-- ===== src/CanCodec/CanField/Pvt.antt =====
-- src/codec_can.h: the fields of `can_field::pvt`.
use servo_fleet.BitCodec.{Bits}

abbrev pub mode : Bits
mode = record { offset = 0; len = 3 }

abbrev pub kp : Bits
kp = record { offset = 3; len = 12 }

abbrev pub kd : Bits
kd = record { offset = 15; len = 9 }

abbrev pub position : Bits
position = record { offset = 24; len = 16 }

abbrev pub velocity : Bits
velocity = record { offset = 40; len = 12 }

abbrev pub torque : Bits
torque = record { offset = 52; len = 12 }
