-- ===== src/CanCodec/CanField/ConfigQuery.antt =====
-- src/codec_can.h: the fields of `can_field::config_query`.
use servo_fleet.BitCodec.{Bits}

abbrev pub mode : Bits
mode = record { offset = 0; len = 3 }

abbrev pub reserved : Bits
reserved = record { offset = 3; len = 5 }

abbrev pub key : Bits
key = record { offset = 8; len = 8 }
