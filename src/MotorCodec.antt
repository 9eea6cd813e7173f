-- ===== src/MotorCodec.antt =====
-- src/codec_motor.h and src/codec_motor.cc: the UDP packet that carries up to 32 CAN frames.
-- A span is the list of its bytes. `encode_into` writes into the first bytes of `out`, so its
-- writes to the sub-span `packet` are writes to `out` at the same offsets.
pub mod Wire
pub mod Encode
pub mod Entries
pub mod Decode
pub mod RoundTrip
mod Tests
use servo_fleet.Prelude.{
  ℕ, zero, suc, ◌+◌, ◌-◌, ◌*◌, ◌<◌, Bool, true, false, ◌&&◌, ◌||◌, not, ◌==◌, ltb, if◌then◌else◌,
  List, [], ◌∷◌, length, get_or, set, take, drop, copy_into, Option, none, some, bit_and, bit_or,
}
use servo_fleet.Words.{u8, u16, u32, shl, shr, shl32}
use servo_fleet.Error.{FleetErr, Result, expected, unexpected, is_error, ◌>>=◌}
use servo_fleet.Checksum.{crc16_ccitt}
use servo_fleet.CanFrame.{
  CanFrame, empty_frame, valid, max_frames_per_packet, extended_id_flag, max_can_data_len,
}

abbrev pub type_can2udp : ℕ
type_can2udp = 0

abbrev pub type_udp2can : ℕ
type_udp2can = 1

abbrev pub stx : ℕ
stx = 0xaa

abbrev pub etx : ℕ
etx = 0xbb

abbrev pub can_entry_sz : ℕ
can_entry_sz = 14

abbrev pub min_packet_sz : ℕ
min_packet_sz = 8

abbrev pub max_packet_sz : ℕ
max_packet_sz = min_packet_sz + max_frames_per_packet * can_entry_sz

abbrev pub header_sz : ℕ
header_sz = 4

abbrev pub crc_sz : ℕ
crc_sz = 2

abbrev pub trailer_sz : ℕ
trailer_sz = 1

abbrev pub msg_cnt_sz : ℕ
msg_cnt_sz = 1

pub record HeaderInfo : Type 0 where
  pub kind : ℕ
  pub payload_len : ℕ

unfoldable pub packet_size : ℕ → ℕ
packet_size payload_len = u32 (header_sz + payload_len + crc_sz + trailer_sz)

unfoldable pub supported_type : ℕ → Bool
supported_type kind = kind == type_can2udp || kind == type_udp2can

unfoldable pub payload_len_for : ℕ → ℕ
payload_len_for frame_count = u32 (msg_cnt_sz + frame_count * can_entry_sz)

unfoldable pub read_u16_le : List ℕ → ℕ → ℕ
read_u16_le bytes offset =
    u16 (bit_or (get_or bytes offset 0) (shl (get_or bytes (offset + 1) 0) 8))

unfoldable pub read_u16_be : List ℕ → ℕ → ℕ
read_u16_be bytes offset =
    u16 (bit_or (shl (get_or bytes offset 0) 8) (get_or bytes (offset + 1) 0))

unfoldable pub read_u32_be : List ℕ → ℕ → ℕ
read_u32_be bytes offset =
    bit_or
      (bit_or (bit_or (shl32 (get_or bytes offset 0) 24) (shl32 (get_or bytes (offset + 1) 0) 16))
        (shl32 (get_or bytes (offset + 2) 0) 8))
      (get_or bytes (offset + 3) 0)

unfoldable pub write_u16_be : List ℕ → ℕ → ℕ → List ℕ
write_u16_be bytes offset value = set (set bytes offset (u8 (shr value 8))) (offset + 1) (u8 value)

unfoldable pub write_u32_be : List ℕ → ℕ → ℕ → List ℕ
write_u32_be bytes offset value =
    set
      (set (set (set bytes offset (u8 (shr value 24))) (offset + 1) (u8 (shr value 16)))
        (offset + 2) (u8 (shr value 8)))
      (offset + 3) (u8 value)

unfoldable pub wire_id_from : CanFrame → ℕ
wire_id_from frame = if frame.extended then bit_or frame.id extended_id_flag else frame.id

-- `~EXTENDED_ID_FLAG` is 0x7fffffff.
unfoldable pub apply_wire_id : CanFrame → ℕ → CanFrame
apply_wire_id frame wire_id = record frame {
  extended = not (bit_and wire_id extended_id_flag == 0);
  id = bit_and wire_id (0xffff_ffff - extended_id_flag);
}

unfoldable pub read_header : List ℕ → Result HeaderInfo
read_header bytes =
    let kind = get_or bytes 1 0 in
    let payload_len = read_u16_be bytes 2 in
    if ltb (length bytes) min_packet_sz
      || not (get_or bytes 0 0 == stx)
      || not (get_or bytes (length bytes - 1) 0 == etx)
    then unexpected FleetErr.protocol_error
    else if not (supported_type kind)
    then unexpected FleetErr.unsupported
    else if not (length bytes == packet_size payload_len) || ltb payload_len msg_cnt_sz
    then unexpected FleetErr.protocol_error
    else expected (record { kind = kind; payload_len = payload_len })

unfoldable pub verify_crc : List ℕ → ℕ → FleetErr
verify_crc bytes payload_len =
    let crc_offset = header_sz + payload_len in
    let crc_calc = crc16_ccitt (take (3 + payload_len) (drop 1 bytes)) in
    let crc_recv = read_u16_le bytes crc_offset in
    if not (crc_calc == crc_recv) then FleetErr.protocol_error else FleetErr.ok

unfoldable pub read_can_entry : List ℕ → Result CanFrame
read_can_entry entry =
    let frame =
      apply_wire_id (record empty_frame { port = get_or entry 0 0; len = get_or entry 5 0 })
        (read_u32_be entry 1) in
    if not (valid frame)
    then unexpected FleetErr.protocol_error
    else expected (record frame { bytes = take max_can_data_len (drop 6 entry) })

-- The entry is the sub-span of the packet at `base`.
unfoldable pub write_can_entry : List ℕ → ℕ → CanFrame → List ℕ
write_can_entry packet base frame =
    let with_port = set packet base frame.port in
    let with_id = write_u32_be with_port (base + 1) (wire_id_from frame) in
    let with_len = set with_id (base + 5) frame.len in copy_into with_len (base + 6) frame.bytes

unfoldable pub write_entries : List ℕ → ℕ → List CanFrame → List ℕ × ℕ
write_entries packet offset [] = (packet, offset)
write_entries packet offset (frame ∷ frames) =
    write_entries (write_can_entry packet offset frame) (offset + can_entry_sz) frames

unfoldable pub all_valid : List CanFrame → Bool
all_valid [] = true
all_valid (frame ∷ frames) = valid frame && all_valid frames

-- The packet once all is checked.
unfoldable pub fill_packet : List ℕ → ℕ → ℕ → List CanFrame → List ℕ
fill_packet out kind payload_len frames =
    let started = set (set out 0 stx) 1 kind in
    let headed = set (write_u16_be started 2 (u16 payload_len)) 4 (u8 (length frames)) in
    let (packet, offset) = write_entries headed (header_sz + msg_cnt_sz) frames in
    let crc = crc16_ccitt (take (3 + payload_len) (drop 1 packet)) in
    set (set (set packet offset (u8 (bit_and crc 0xff))) (offset + 1) (u8 (shr crc 8)))
      (offset + crc_sz) etx

-- The result and the buffer after the call.
unfoldable pub encode_into : List ℕ → ℕ → List CanFrame → Result ℕ × List ℕ
encode_into out kind frames =
    let frame_count = u32 (length frames) in
    let payload_len = payload_len_for frame_count in
    let size = packet_size (u16 payload_len) in
    if ltb max_frames_per_packet (length frames)
    then (unexpected FleetErr.protocol_error, out)
    else if ltb 0xffff payload_len
    then (unexpected FleetErr.protocol_error, out)
    else if ltb (length out) size
    then (unexpected FleetErr.invalid_argument, out)
    else if not (all_valid frames)
    then (unexpected FleetErr.protocol_error, out)
    else (expected size, fill_packet out kind payload_len frames)

-- `handler` changes the state that its context stands for.
module _ {S : Type 0} (handler : S → CanFrame → S) where
  -- The loop, with `n` entries left and the next at `offset`.
  unfoldable pub decode_entries : List ℕ → ℕ → ℕ → S → FleetErr × S
  decode_entries bytes offset zero s = (FleetErr.ok, s)
  decode_entries bytes offset (suc n) s =
      elim (read_can_entry (take can_entry_sz (drop offset bytes))) [
        | unexpected e ↦ (e, s)
        | expected frame ↦ decode_entries bytes (offset + can_entry_sz) n (handler s frame)
      ]

  unfoldable pub decode_packet : List ℕ → S → FleetErr × S
  decode_packet bytes s = elim (read_header bytes) [
    | unexpected e ↦ (e, s)
    | expected header ↦
        let err = verify_crc bytes header.payload_len in
        let frame_count = get_or bytes 4 0 in
        if is_error err
        then (err, s)
        else if not (header.payload_len == payload_len_for frame_count)
            || ltb max_frames_per_packet frame_count
        then (FleetErr.protocol_error, s)
        else decode_entries bytes (header_sz + msg_cnt_sz) frame_count s
  ]

-- A null handler is `none`.
unfoldable pub decode_each : {S : Type 0} → List ℕ → Option (S → CanFrame → S) → S → FleetErr × S
decode_each bytes none s = (FleetErr.invalid_argument, s)
decode_each bytes (some handler) s = decode_packet handler bytes s
