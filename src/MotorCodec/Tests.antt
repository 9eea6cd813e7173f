-- ===== src/MotorCodec/Tests.antt =====
-- Packets of concrete frames.
use servo_fleet.Prelude.{
  ℕ, ◌≡◌, refl, arith, false, true, List, [], ◌∷◌, ◌++◌, replicate, take, some, ltb, if◌then◌else◌,
  ◌+◌, ◌*◌,
}
use servo_fleet.Error.{FleetErr, expected, unexpected}
use servo_fleet.CanFrame.{CanFrame, valid}
use servo_fleet.MotorCodec.{
  encode_into, decode_each, all_valid, type_udp2can, payload_len_for, packet_size, supported_type,
}
use servo_fleet.MotorCodec.Wire.{packet}
use servo_fleet.MotorCodec.Encode.{encode_into_lem}
use servo_fleet.MotorCodec.Decode.{decode_each-packet}
use servo_fleet.MotorCodec.RoundTrip.{decode_each-encode_into}

abbrev one_frame : CanFrame
one_frame = record {
  port = 2;
  id = 0x123;
  extended = false;
  bytes = 1 ∷ 2 ∷ 3 ∷ 4 ∷ 5 ∷ 6 ∷ 7 ∷ 8 ∷ [];
  len = 8;
}

abbrev wide_frame : CanFrame
wide_frame = record one_frame { id = 0x800 }

abbrev collect : List CanFrame → CanFrame → List CanFrame
collect seen frame = seen ++ (frame ∷ [])

refused :
    encode_into (replicate 64 0) type_udp2can (wide_frame ∷ [])
    ≡ (unexpected FleetErr.protocol_error, replicate 64 0)
unfolding encode_into all_valid valid payload_len_for packet_size
refused = refl

too_small :
    (encode_into (replicate 21 0) type_udp2can (one_frame ∷ [])).0
    ≡ unexpected FleetErr.invalid_argument
unfolding encode_into payload_len_for packet_size
too_small = refl

encode_into_lem_example : encode_into (replicate 24 7) 1 (one_frame ∷ []) ≡ (
    if ltb 32 1
    then (unexpected FleetErr.protocol_error, replicate 24 7)
    else if ltb 24 (8 + 14 * 1)
    then (unexpected FleetErr.invalid_argument, replicate 24 7)
    else if all_valid (one_frame ∷ [])
    then (expected 22, packet 1 (one_frame ∷ []) ++ (7 ∷ 7 ∷ []))
    else (unexpected FleetErr.protocol_error, replicate 24 7))
encode_into_lem_example = encode_into_lem (replicate 24 7) 1 (one_frame ∷ []) (omega arith)

one_valid : all_valid (one_frame ∷ []) ≡ true
unfolding all_valid valid
one_valid = refl

decode_each-encode_into_example :
    (size : ℕ) × ((encode_into (replicate 24 0) 1 (one_frame ∷ [])).0 ≡ expected size)
    × (decode_each (take size (encode_into (replicate 24 0) 1 (one_frame ∷ [])).1) (some collect) []
        ≡ (FleetErr.ok, one_frame ∷ []))
unfolding supported_type
decode_each-encode_into_example =
    decode_each-encode_into collect (replicate 24 0) 1 (one_frame ∷ []) [] refl (omega arith)
      one_valid (omega arith) (omega arith)

decode_each-packet_example :
    decode_each (packet 0 (one_frame ∷ [])) (some collect) [] ≡ (FleetErr.ok, one_frame ∷ [])
unfolding supported_type
decode_each-packet_example =
    decode_each-packet collect 0 (one_frame ∷ []) [] refl (omega arith) one_valid (omega arith)
