-- ===== src/CanCodec/CanField/FeedbackQuery.antt =====
-- src/codec_can.h: the fields of `can_field::feedback_query`, whose `Type` is `kind` here.
use servo_fleet.BitCodec.{Bits}

abbrev pub kind : Bits
kind = record { offset = 0; len = 3 }

abbrev pub error : Bits
error = record { offset = 3; len = 5 }

abbrev pub key : Bits
key = record { offset = 8; len = 8 }
