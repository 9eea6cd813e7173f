-- ===== src/CanCodec/CanField/Feedback1.antt =====
-- src/codec_can.h: the fields of `can_field::feedback1`, whose `Type` is `kind` here.
use servo_fleet.BitCodec.{Bits}

abbrev pub kind : Bits
kind = record { offset = 0; len = 3 }

abbrev pub error : Bits
error = record { offset = 3; len = 5 }

abbrev pub position : Bits
position = record { offset = 8; len = 16 }

abbrev pub velocity : Bits
velocity = record { offset = 24; len = 12 }

abbrev pub current : Bits
current = record { offset = 36; len = 12 }

abbrev pub motor_temp : Bits
motor_temp = record { offset = 48; len = 8 }

abbrev pub mosfet_temp : Bits
mosfet_temp = record { offset = 56; len = 8 }
