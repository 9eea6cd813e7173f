-- ===== src/CanCodec/CanField/Feedback3.antt =====
-- src/codec_can.h: the fields of `can_field::feedback3`, whose `Type` is `kind` here.
use servo_fleet.BitCodec.{Bits}

abbrev pub kind : Bits
kind = record { offset = 0; len = 3 }

abbrev pub error : Bits
error = record { offset = 3; len = 5 }

abbrev pub rpm : Bits
rpm = record { offset = 8; len = 32 }

abbrev pub current_x100 : Bits
current_x100 = record { offset = 40; len = 16 }

abbrev pub temp : Bits
temp = record { offset = 56; len = 8 }
