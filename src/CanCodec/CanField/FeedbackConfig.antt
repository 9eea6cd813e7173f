-- ===== src/CanCodec/CanField/FeedbackConfig.antt =====
-- src/codec_can.h: the fields of `can_field::feedback_config`, whose `Type` is `kind` here.
use servo_fleet.BitCodec.{Bits}

abbrev pub kind : Bits
kind = record { offset = 0; len = 3 }

abbrev pub error : Bits
error = record { offset = 3; len = 5 }

abbrev pub key : Bits
key = record { offset = 8; len = 8 }

abbrev pub status : Bits
status = record { offset = 16; len = 8 }
