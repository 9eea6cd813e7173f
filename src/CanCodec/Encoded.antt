-- ===== src/CanCodec/Encoded.antt =====
-- `encode` writes the frame of the wire format.
use servo_fleet.Prelude.{ℕ, ◌≤◌, ◌<◌, ◌^◌, refl, arith, List}
use servo_fleet.Error.{Result, expected, unexpected}
use servo_fleet.BitCodec.{Bits}
use servo_fleet.CanFrame.{CanFrame, CanAddr, valid}
use servo_fleet.Floats.{ℤ, pos, negsuc, Floats, IsFloats, to_u16}
use servo_fleet.Commands.{
  ReplyMode, PvtCommand, PositionCommand, VelocityCommand, pvt_command, position_command,
  velocity_command,
}
use servo_fleet.CanCodec.{init_frame, write_fields, write_checked, reply_u8}
use servo_fleet.CanCodec.Layout.{Laid, write_fields_lem}
use servo_fleet.CanCodec.Bounds.{
  Passes, Passes-bind, checked_pvt_gain_lem, checked_symmetric_lem, checked_u16_scaled_lem,
  checked_i16_scaled_lem,
}
use servo_fleet.CanCodec.Wire.{Encodes, wire_of, wire_torque}
use servo_fleet.CanCodec.Making.{f32_to_bits}
use servo_fleet.CanCodec.Configuring.{two_u16, two_i16}

pub Laid-Encodes :
    (address : CanAddr) (frame : CanFrame) (len : ℕ) (fields : List (Bits × ℕ))
    → len ≤ 8
    → Laid len fields
    → Encodes address frame
        (len, expected fields)
        (write_fields fields (init_frame address len frame))
unfolding init_frame valid
Laid-Encodes address frame len fields hl laid =
    let w = write_fields_lem fields (init_frame address len frame) refl hl (omega arith) laid in
    (
      w,
      w.kept.same_port,
      w.kept.same_id,
      w.kept.same_len,
      ground (arith, w.kept.same_extended, w.kept.same_len, w.kept.same_id),
    )

pub Passes-Encodes :
    (address : CanAddr) (frame : CanFrame) (len : ℕ) (r : Result (List (Bits × ℕ)))
    → len ≤ 8
    → Passes (Laid len) r
    → Encodes address frame (len, r) (write_checked r (init_frame address len frame))
Passes-Encodes address frame len (unexpected e) hl h = (refl, h)
Passes-Encodes address frame len (expected fields) hl laid =
    Laid-Encodes address frame len fields hl laid

reply_u8-lt : (r : ReplyMode) → reply_u8 r < 4
unfolding reply_u8
reply_u8-lt r = ground arith

pub to_u16-lt : (z : ℤ) → to_u16 z < 65536
to_u16-lt (pos n) = omega arith
to_u16-lt (negsuc n) = omega arith

module _ (F : Type 0) ⦃fl : Floats F⦄ ⦃law : IsFloats F⦄ where
  pub pvt-Laid : (c : PvtCommand F) → Passes (Laid 8) (wire_of F (pvt_command c)).1
  unfolding wire_of
  pvt-Laid c =
      Passes-bind (λ n. n ≤ 4095) (Laid 8) _ _ (checked_pvt_gain_lem F _ _ 4095 (omega arith))
        (λ kp hkp.
          Passes-bind (λ n. n ≤ 511) (Laid 8) _ _ (checked_pvt_gain_lem F _ _ 511 (omega arith))
            (λ kd hkd.
              Passes-bind (λ n. n ≤ 0xffff) (Laid 8) _ _
                (checked_symmetric_lem F _ _ 32767 0xffff (omega arith))
                (λ p hp.
                  Passes-bind (λ n. n ≤ 0xfff) (Laid 8) _ _
                    (checked_symmetric_lem F _ _ 2047 0xfff (omega arith))
                    (λ v hv.
                      Passes-bind (λ n. n ≤ 0xfff) (Laid 8) _ _
                        (checked_symmetric_lem F _ _ 2047 0xfff (omega arith))
                        (λ t ht. omega arith)))))

  f32_to_bits-lt : (d : fl.Double) → f32_to_bits F d < 2 ^ 32
  unfolding f32_to_bits
  f32_to_bits-lt d = law.bits_of_f32-lt (fl.narrow d)

  pub position-Laid : (c : PositionCommand F) → Passes (Laid 8) (wire_of F (position_command c)).1
  unfolding wire_of
  position-Laid c =
      Passes-bind (λ n. n ≤ 0x7fff) (Laid 8) _ _ (checked_u16_scaled_lem F _ _ 0x7fff (omega arith))
        (λ v hv.
          Passes-bind (λ n. n ≤ 0xfff) (Laid 8) _ _
            (checked_u16_scaled_lem F _ _ 0xfff (omega arith))
            (λ a ha. omega (arith, reply_u8-lt c.reply, f32_to_bits-lt (fl.widen c.position_deg))))

  pub velocity-Laid : (c : VelocityCommand F) → Passes (Laid 7) (wire_of F (velocity_command c)).1
  unfolding wire_of
  velocity-Laid c =
      Passes-bind (λ n. n ≤ 0xffff) (Laid 7) _ _ (checked_u16_scaled_lem F _ _ 0xffff (omega arith))
        (λ a ha. omega (arith, reply_u8-lt c.reply, f32_to_bits-lt (fl.widen c.velocity_rpm)))

  pub torque-Laid :
      (mode : ℕ) (value : F) (reply : ReplyMode)
      → mode < 8
      → Passes (Laid 3) (wire_torque F mode value reply)
  unfolding wire_torque
  torque-Laid mode value reply hm =
      Passes-bind (λ z. Unit) (Laid 3) _ _ (checked_i16_scaled_lem F value _)
        (λ z h. omega (arith, reply_u8-lt reply, to_u16-lt z))

  pub two_u16-lt :
      (low high : F) (a b : ℕ)
      → Passes (λ p. (p.0 < 65536) × (p.1 < 65536)) (two_u16 F low high a b)
  unfolding two_u16
  two_u16-lt low high a b =
      Passes-bind (λ n. n ≤ 0xffff) (λ p. (p.0 < 65536) × (p.1 < 65536)) _ _
        (checked_u16_scaled_lem F low _ 0xffff (omega arith))
        (λ v hv.
          Passes-bind (λ n. n ≤ 0xffff) (λ p. (p.0 < 65536) × (p.1 < 65536)) _ _
            (checked_u16_scaled_lem F high _ 0xffff (omega arith)) (λ w hw. omega arith))

  pub two_i16-lt :
      (low high : F) (a : ℕ) → Passes (λ p. (p.0 < 65536) × (p.1 < 65536)) (two_i16 F low high a)
  unfolding two_i16
  two_i16-lt low high a =
      Passes-bind (λ z. Unit) (λ p. (p.0 < 65536) × (p.1 < 65536)) _ _
        (checked_i16_scaled_lem F low _)
        (λ v hv.
          Passes-bind (λ z. Unit) (λ p. (p.0 < 65536) × (p.1 < 65536)) _ _
            (checked_i16_scaled_lem F high _) (λ w hw. omega (arith, to_u16-lt v, to_u16-lt w)))
