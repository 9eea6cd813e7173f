-- ===== src/CanCodec/CanField/BrakeControl.antt =====
-- src/codec_can.h: the fields of `can_field::brake_control`.
use servo_fleet.BitCodec.{Bits}

abbrev pub mode : Bits
mode = record { offset = 0; len = 3 }

abbrev pub reserved : Bits
reserved = record { offset = 3; len = 5 }

abbrev pub engaged : Bits
engaged = record { offset = 8; len = 8 }
