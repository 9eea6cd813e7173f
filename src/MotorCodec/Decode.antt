-- ===== src/MotorCodec/Decode.antt =====
-- `decode_each` of src/codec_motor.cc delivers the frames of a packet.
use native.Mathlib.Nat.{mod-eq_of_lt}
use servo_fleet.Prelude.{
  ℕ, suc, ◌+◌, ◌*◌, ◌/◌, ◌%◌, ◌^◌, ◌<◌, ◌≤◌, ◌≡◌, refl, ◌∙◌, ap, arith, true, List, [], ◌∷◌, ◌++◌,
  length, drop, take, bit_or, some, get_or, All-append, ==-self, le→ltb,
}
use mathlib.Core.List.{foldl}
use servo_fleet.Words.{AreBytes, IsByte}
use servo_fleet.Words.Digits.{bit_or_comm, bit_or_fields}
use servo_fleet.Error.{FleetErr, expected}
use servo_fleet.Checksum.{crc16_ccitt}
use servo_fleet.Checksum.Slices.{crc16_ccitt-lt}
use servo_fleet.CanFrame.{CanFrame, IsFrame}
use servo_fleet.MotorCodec.{
  read_header, verify_crc, read_u16_be, read_u16_le, packet_size, payload_len_for, decode_packet,
  decode_each, all_valid, etx, supported_type,
}
use servo_fleet.MotorCodec.Wire.{entry, entries, body, packet, AreFrames}
use servo_fleet.MotorCodec.Encode.{take-append, length-body, length-packet}
use servo_fleet.MotorCodec.Entries.{decode_entries-eq}

get_or-append_right :
    (xs ys : List ℕ) (i d : ℕ) → get_or (xs ++ ys) (length xs + i) d ≡ get_or ys i d
get_or-append_right [] ys i d = ap (λ k. get_or ys k d) (omega arith)
get_or-append_right (x ∷ xs) ys i d =
    ap (λ k. get_or (x ∷ (xs ++ ys)) k d) {y = suc (length xs + i)} (omega arith)
    ∙ get_or-append_right xs ys i d

join_be16 : (v : ℕ) → v < 65536 → bit_or (v / 256 % 256 * 2 ^ 8) (v % 256) ≡ v
join_be16 v h = bit_or_fields 8 (v / 256 % 256) (v % 256) (omega arith) ∙ omega arith

join_le16 : (v : ℕ) → v < 65536 → bit_or (v % 256) (v / 256 % 256 * 2 ^ 8) ≡ v
join_le16 v h = bit_or_comm (v % 256) (v / 256 % 256 * 2 ^ 8) ∙ join_be16 v h

module _ (kind : ℕ) (frames : List CanFrame) (h : AreFrames frames) (le : length frames ≤ 32) where
  -- Byte `i` behind the body.
  trailer_byte :
      (i : ℕ)
      → get_or (packet kind frames) (5 + 14 * length frames + i) 0
        ≡ get_or
            (crc16_ccitt (body kind frames) % 256
              ∷ crc16_ccitt (body kind frames) / 256 % 256
              ∷ etx
              ∷ [])
            i
            0
  unfolding packet
  trailer_byte i =
      ap (λ o. get_or (packet kind frames) o 0) {y = length (0xaa ∷ body kind frames) + i}
        (omega (arith, length-body kind frames h))
      ∙ get_or-append_right (0xaa ∷ body kind frames) _ i 0

  length_field : read_u16_be (packet kind frames) 2 ≡ 1 + 14 * length frames
  unfolding read_u16_be packet body
  length_field = rw (join_be16 (1 + 14 * length frames) (omega arith)) (omega arith)

  read_header-packet :
      supported_type kind ≡ true
      → read_header (packet kind frames)
        ≡ expected (record { kind = kind; payload_len = 1 + 14 * length frames })
  unfolding read_header packet_size
  read_header-packet ok =
      ground
        (arith, first_byte, kind_byte, length-packet kind frames h, length_field, trailer_byte 2)
    where
      first_byte : get_or (packet kind frames) 0 0 ≡ 0xaa
      first_byte = unfold packet in refl

      kind_byte : get_or (packet kind frames) 1 0 ≡ kind
      kind_byte = unfold packet body in refl

  covered :
      crc16_ccitt (take (3 + (1 + 14 * length frames)) (drop 1 (packet kind frames)))
      ≡ crc16_ccitt (body kind frames)
  unfolding packet
  covered =
      ap (λ n. crc16_ccitt (take n (body kind frames ++ trailer)))
        (omega (arith, length-body kind frames h))
      ∙ ap crc16_ccitt (take-append (body kind frames) trailer)
    where
      trailer : List ℕ
      trailer =
          crc16_ccitt (body kind frames) % 256
          ∷ crc16_ccitt (body kind frames) / 256 % 256
          ∷ etx
          ∷ []

  received :
      crc16_ccitt (body kind frames) < 65536
      → read_u16_le (packet kind frames) (4 + (1 + 14 * length frames))
        ≡ crc16_ccitt (body kind frames)
  unfolding read_u16_le
  received small =
      let first : 5 + 14 * length frames + 0 ≡ 4 + (1 + 14 * length frames) = omega arith in
      let second : 5 + 14 * length frames + 1 ≡ 4 + (1 + 14 * length frames) + 1 = omega arith in
      rw
        (
          rw first at (trailer_byte 0),
          rw second at (trailer_byte 1),
          join_le16 (crc16_ccitt (body kind frames)) small,
        )
        (mod-eq_of_lt small)

  verify_crc-packet :
      crc16_ccitt (body kind frames) < 65536
      → verify_crc (packet kind frames) (1 + 14 * length frames) ≡ FleetErr.ok
  unfolding verify_crc
  verify_crc-packet small = rw (covered, received small, ==-self (crc16_ccitt (body kind frames)))

  count_byte : get_or (packet kind frames) 4 0 ≡ length frames
  unfolding packet body
  count_byte = refl

  payload_of_count : payload_len_for (length frames) ≡ 1 + 14 * length frames
  unfolding payload_len_for
  payload_of_count = omega arith

entry-AreBytes : (frame : CanFrame) → IsFrame frame → AreBytes (entry frame)
unfolding entry
entry-AreBytes frame h = (
  h.port_byte,
  (omega arith, (omega arith, (omega arith, (omega arith, (h.len_byte, h.bytes_are))))),
)

entries-AreBytes : (frames : List CanFrame) → AreFrames frames → AreBytes (entries frames)
unfolding entries
entries-AreBytes [] h = tt
entries-AreBytes (frame ∷ frames) h =
    All-append IsByte (entry frame) (entries frames) (entry-AreBytes frame h.0)
      (entries-AreBytes frames h.1)

crc-body-lt :
    (kind : ℕ) (frames : List CanFrame)
    → kind < 256
    → AreFrames frames
    → length frames ≤ 32
    → crc16_ccitt (body kind frames) < 65536
unfolding body
crc-body-lt kind frames hk h le =
    crc16_ccitt-lt (body kind frames)
      (hk, (omega arith, (omega arith, (omega arith, entries-AreBytes frames h))))

abbrev trailer_of : ℕ → List CanFrame → List ℕ
trailer_of kind frames =
    let crc = crc16_ccitt (body kind frames) in crc % 256 ∷ crc / 256 % 256 ∷ etx ∷ []

entries_place :
    (kind : ℕ) (frames : List CanFrame)
    → drop 5 (packet kind frames) ≡ entries frames ++ trailer_of kind frames
unfolding packet body
entries_place kind frames = refl

-- A packet of the format is accepted, and its frames reach the handler in order.
pub decode_each-packet :
    {S : Type 0} (handler : S → CanFrame → S) (kind : ℕ) (frames : List CanFrame) (s : S)
    → supported_type kind ≡ true
    → AreFrames frames
    → all_valid frames ≡ true
    → length frames ≤ 32
    → decode_each (packet kind frames) (some handler) s ≡ (FleetErr.ok, foldl handler s frames)
unfolding decode_each decode_packet supported_type
decode_each-packet handler kind frames s ok h v le =
    rw
      (
        read_header-packet kind frames h le ok,
        verify_crc-packet kind frames h le (crc-body-lt kind frames (ground arith) h le),
        count_byte kind frames h le,
        payload_of_count kind frames h le,
        ==-self (1 + 14 * length frames),
        le→ltb 32 (length frames) le,
        decode_packet,
      )
      (decode_entries-eq handler (packet kind frames) (trailer_of kind frames) 5 frames s h v
        (entries_place kind frames))
