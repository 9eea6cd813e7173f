-- ===== src/CanCodec/CanField/Config.antt =====
-- src/codec_can.h: the fields of `can_field::config`.
use servo_fleet.BitCodec.{Bits}

abbrev pub mode : Bits
mode = record { offset = 0; len = 3 }

abbrev pub reserved : Bits
reserved = record { offset = 3; len = 3 }

abbrev pub reply : Bits
reply = record { offset = 6; len = 2 }

abbrev pub key : Bits
key = record { offset = 8; len = 8 }

abbrev pub value : Bits
value = record { offset = 16; len = 16 }

abbrev pub min : Bits
min = record { offset = 16; len = 16 }

abbrev pub max : Bits
max = record { offset = 32; len = 16 }
