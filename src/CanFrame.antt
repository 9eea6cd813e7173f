-- ===== src/CanFrame.antt =====
-- src/codec_can.h, `basic_can_frame<8>` with its constants, and include/fleet/device_motor.h,
-- `can_addr_t`. The array `data` is a list of eight bytes.
use servo_fleet.Prelude.{
  ℕ, ◌<◌, Bool, false, ◌&&◌, leb, if◌then◌else◌, List, ◌≡◌, replicate, length, take,
}
use servo_fleet.Words.{AreBytes}

abbrev pub max_can_data_len : ℕ
max_can_data_len = 8

abbrev pub max_frames_per_packet : ℕ
max_frames_per_packet = 32

abbrev pub extended_id_flag : ℕ
extended_id_flag = 0x8000_0000

abbrev pub broadcast_can_id : ℕ
broadcast_can_id = 0x7ff

pub record CanAddr : Type 0 where
  pub can_port : ℕ
  pub can_id : ℕ

pub record CanFrame : Type 0 where
  pub port : ℕ
  pub id : ℕ
  pub extended : Bool
  pub bytes : List ℕ
  pub len : ℕ

-- `can_frame{}`.
abbrev pub empty_frame : CanFrame
empty_frame = record { port = 0; id = 0; extended = false; bytes = replicate 8 0; len = 0 }

unfoldable pub valid : CanFrame → Bool
valid frame =
    let max_id : ℕ = if frame.extended then 0x1fff_ffff else 0x7ff in
    leb frame.id max_id && leb frame.len max_can_data_len

-- `as_bytes_view`: the bytes that `read` sees.
abbrev pub as_bytes_view : CanFrame → List ℕ
as_bytes_view frame = take frame.len frame.bytes

-- What the C++ types say of a frame.
pub record IsFrame (frame : CanFrame) : Type 0 where
  pub port_byte : frame.port < 256
  pub len_byte : frame.len < 256
  pub eight : length frame.bytes ≡ 8
  pub bytes_are : AreBytes frame.bytes
