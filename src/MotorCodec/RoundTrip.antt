-- ===== src/MotorCodec/RoundTrip.antt =====
-- Encoding and decoding again.
use mathlib.Core.List.{foldl}
use servo_fleet.Prelude.{
  ℕ, ◌+◌, ◌*◌, ◌≤◌, ◌≡◌, ◌∙◌, ap, sym, arith, true, List, ◌++◌, length, drop, take, some,
}
use servo_fleet.Error.{FleetErr, expected}
use servo_fleet.CanFrame.{CanFrame}
use servo_fleet.MotorCodec.{encode_into, decode_each, all_valid, supported_type}
use servo_fleet.MotorCodec.Wire.{packet, AreFrames}
use servo_fleet.MotorCodec.Encode.{encode_into_lem, length-packet, take-append}
use servo_fleet.MotorCodec.Decode.{decode_each-packet}

-- Up to 32 valid frames, encoded under a supported type into a buffer with room for the packet, come
-- out of `decode_each` of the bytes that `encode_into` reports: the call succeeds, and the handler
-- has seen exactly these frames, in order.
pub decode_each-encode_into :
    {S : Type 0} (handler : S → CanFrame → S) (out : List ℕ) (kind : ℕ) (frames : List CanFrame)
    (s : S)
    → supported_type kind ≡ true
    → AreFrames frames
    → all_valid frames ≡ true
    → length frames ≤ 32
    → 8 + 14 * length frames ≤ length out
    → (size : ℕ) × ((encode_into out kind frames).0 ≡ expected size)
      × (decode_each (take size (encode_into out kind frames).1) (some handler) s
          ≡ (FleetErr.ok, foldl handler s frames))
decode_each-encode_into handler out kind frames s ok h v le fits = (
  8 + 14 * length frames,
  ap (λ p. p.0) done,
  ap (λ p. decode_each (take (8 + 14 * length frames) p.1) (some handler) s) done
      ∙ ap (λ b. decode_each b (some handler) s) front
      ∙ decode_each-packet handler kind frames s ok h v le,
)
  where
    done : encode_into out kind frames ≡ (
      expected (8 + 14 * length frames),
      packet kind frames ++ drop (8 + 14 * length frames) out,
    )
    done = encode_into_lem out kind frames h ∙ ground arith

    front :
        take (8 + 14 * length frames) (packet kind frames ++ drop (8 + 14 * length frames) out)
        ≡ packet kind frames
    front =
        ap (λ n. take n (packet kind frames ++ drop (8 + 14 * length frames) out))
          (sym (length-packet kind frames h))
        ∙ take-append (packet kind frames) (drop (8 + 14 * length frames) out)
