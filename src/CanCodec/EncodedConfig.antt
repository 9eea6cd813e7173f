-- ===== src/CanCodec/EncodedConfig.antt =====
-- `encode` writes the frame of the wire format: the configurations.
use servo_fleet.Prelude.{
  ℕ, ◌≤◌, ◌<◌, ◌≡◌, refl, arith, Bool, true, false, not, Bool-cases, inl, inr, leb, ltb, ◌%◌,
  bit_and, all_below, all_below_sound, ◌||◌, ◌==◌, if◌then◌else◌, List, [], ◌∷◌, length, set, ◌++◌,
  take, drop, ap, ◌∙◌, sym, subst,
}
use servo_fleet.Error.{FleetErr, Result, expected, unexpected, Action, and_then}
use servo_fleet.BitCodec.{Bits, write, is_byte_field, write_aligned, mask32}
use servo_fleet.CanFrame.{CanFrame, CanAddr}
use servo_fleet.Feedback.{Range}
use servo_fleet.Floats.{ℤ, pos, negsuc, Floats, IsFloats, ltb_int, to_u16}
use servo_fleet.Commands.{
  ConfigSetValue, float_value, u8_value, double_value, u16_range_value, float_range_value,
  milliseconds_value, pid_value,
}
use servo_fleet.Commands.ConfigSetCode
use servo_fleet.CanCodec.{init_frame, write_field, write_fields, with_bytes}
use servo_fleet.CanCodec.Layout.{Written, and_then_ext, write_fields-append}
use servo_fleet.CanCodec.Bounds.{Passes, checked_u16_scaled_lem}
use servo_fleet.CanCodec.Configuring.{
  make_config_value, make_config_range, range_of, value_of, encode_mode, encode_u16_range,
  encode_timeout, encode_ratio, encode_acceleration, encode_float_range, encode_pid,
  encode_config_payload,
}
use servo_fleet.CanCodec.Wire.{
  Encodes, IsConfigValue, wire_config, wire_timeout, config_value, config_range, config_head, at,
  refused,
}
use servo_fleet.CanCodec.Encoded.{Laid-Encodes, two_u16-lt, two_i16-lt}

module _ (address : CanAddr) (frame : CanFrame) where
  value-Encodes :
      (b : Bool) (code : ℕ) (r : Result ℕ)
      → (b ≡ true → code < 256)
      → Passes (λ n. n ≤ 0xffff) r
      → Encodes address frame
          (4, if b then config_value code r else refused)
          (if not b then (FleetErr.invalid_argument, frame) else value_of address code r frame)
  unfolding make_config_value
  value-Encodes false code r hc h = (refl, refl)
  value-Encodes true code (unexpected e) hc h = (refl, h)
  value-Encodes true code (expected v) hc h =
      let small : code < 256 = hc refl in
      Laid-Encodes address frame 4 (config_head code (at 16 16 v ∷ [])) (omega arith) (omega arith)

  range-Encodes :
      (b : Bool) (code : ℕ) (r : Result (ℕ × ℕ)) (rest : Result (List (Bits × ℕ)))
      (out : FleetErr × CanFrame)
      → (b ≡ true → code < 256)
      → Passes (λ p. (p.0 < 65536) × (p.1 < 65536)) r
      → Encodes address frame (6, rest) out
      → Encodes address frame
          (6, if b then config_range code r else rest)
          (if b then range_of address code r frame else out)
  unfolding make_config_range
  range-Encodes false code r rest out hc h k = k
  range-Encodes true code (unexpected e) rest out hc h k = (refl, h)
  range-Encodes true code (expected (low, high)) rest out hc h k =
      let small : code < 256 = hc refl in
      Laid-Encodes address frame 6 (config_head code (at 16 16 low ∷ at 32 16 high ∷ []))
        (omega arith) (omega arith)

  timeout-Encodes :
      (b : Bool) (code : ℕ) (t : ℤ)
      → (b ≡ true → code < 256)
      → Encodes address frame
          (4, if b then wire_timeout code t else refused)
          (if not b
            then (FleetErr.invalid_argument, frame)
            else if ltb_int t (pos 0) || ltb_int (pos 0xffff) t
            then (FleetErr.invalid_argument, frame)
            else make_config_value address code 4 (to_u16 t) frame)
  unfolding wire_timeout ltb_int
  timeout-Encodes false code t hc = (refl, refl)
  timeout-Encodes true code (negsuc n) hc = (refl, refl)
  timeout-Encodes true code (pos n) hc = elim (Bool-cases (leb n 0xffff)) [
    | inl e ↦
        let not_above : ltb 65535 n ≡ false = ground arith in
        let not_below : ltb n 0 ≡ false = ground arith in
        let same : n % 65536 ≡ n = ground arith in
        rw (e, not_above, not_below, same) (value-Encodes true code (expected n) hc (ground arith))
    | inr e ↦
        let above : ltb 65535 n ≡ true = ground arith in
        let not_below : ltb n 0 ≡ false = ground arith in rw (e, above, not_below) (refl, refl)
  ]

  u16_range-Encodes :
      (b : Bool) (code : ℕ) (range : Range ℕ)
      → (b ≡ true → code < 256)
      → range.min < 65536
      → range.max < 65536
      → Encodes address frame
          (6, if b then config_range code (expected (range.min, range.max)) else refused)
          (if b
            then make_config_range address code range.min range.max frame
            else (FleetErr.invalid_argument, frame))
  u16_range-Encodes false code range hc h k = (refl, refl)
  u16_range-Encodes true code range hc h k =
      range-Encodes true code (expected (range.min, range.max)) refused
        (FleetErr.invalid_argument, frame) hc (h, k) (refl, refl)

low_byte : all_below 256 (λ m. bit_and m 0xffff_ff00 == 0) ≡ true
unfolding all_below
low_byte = refl

-- The field of the eight bits behind the key is a byte.
write-third :
    (mode : ℕ) (bytes : List ℕ)
    → length bytes ≡ 8
    → mode < 256
    → write (record { offset = 16; len = 8 }) mode (take 3 bytes)
      ≡ (FleetErr.ok, set (take 3 bytes) 2 mode)
unfolding write is_byte_field write_aligned mask32
write-third mode (a ∷ b ∷ c ∷ rest) h hm =
    let masked : (bit_and mode 0xffff_ff00 == 0) ≡ true =
      all_below_sound 256 (λ m. bit_and m 0xffff_ff00 == 0) mode low_byte hm in
    let whole : mode % 256 ≡ mode = omega arith in rw (masked, whole)
write-third mode (a ∷ b ∷ []) h hm = absurd (omega arith)
write-third mode (a ∷ []) h hm = absurd (omega arith)
write-third mode [] h hm = absurd (omega arith)

set-third :
    (mode : ℕ) (bytes : List ℕ)
    → length bytes ≡ 8
    → set (take 3 bytes) 2 mode ++ drop 3 bytes ≡ set bytes 2 mode
set-third mode (a ∷ b ∷ c ∷ rest) h = refl
set-third mode (a ∷ b ∷ []) h = absurd (omega arith)
set-third mode (a ∷ []) h = absurd (omega arith)
set-third mode [] h = absurd (omega arith)

mode_byte :
    (mode : ℕ) (f : CanFrame)
    → f.len ≡ 3
    → length f.bytes ≡ 8
    → mode < 256
    → write_field (record { offset = 16; len = 8 }) mode f
      ≡ (FleetErr.ok, record f { bytes = set f.bytes 2 mode })
unfolding write_field
mode_byte mode f hl h8 hm =
    ap (λ n. with_bytes f (write (record { offset = 16; len = 8 }) mode (take n f.bytes))) hl
    ∙ ap (with_bytes f) (write-third mode f.bytes h8 hm)
    ∙ ap (λ n. (FleetErr.ok, record f { bytes = set (take 3 f.bytes) 2 mode ++ drop n f.bytes })) hl
    ∙ ap (λ b. (FleetErr.ok, record f { bytes = b })) (set-third mode f.bytes h8)

module _ (address : CanAddr) (frame : CanFrame) (code mode : ℕ) (small : code < 256)
    (hm : mode < 256) where
  head-Written :
      Written
        (config_head code [])
        (init_frame address 3 frame)
        (write_fields (config_head code []) (init_frame address 3 frame))
  head-Written = (Laid-Encodes address frame 3 (config_head code []) (omega arith) (omega arith)).0

  put_mode : Action CanFrame
  put_mode f = (FleetErr.ok, record f { bytes = set f.bytes 2 mode })

  mode-fields :
      and_then (write_fields (config_head code []) (init_frame address 3 frame)) put_mode
      ≡ write_fields (config_head code (at 16 8 mode ∷ [])) (init_frame address 3 frame)
  unfolding write_fields put_mode init_frame
  mode-fields =
      let k = head-Written.kept in
      let head = write_fields (config_head code []) (init_frame address 3 frame) in
      and_then_ext head put_mode (write_fields (at 16 8 mode ∷ []))
        (ap (λ p. and_then p (write_fields [])) (sym (mode_byte mode head.1 k.same_len k.eight hm)))
      ∙ sym (
          write_fields-append (config_head code []) (at 16 8 mode ∷ [])
            (init_frame address 3 frame))

  mode-Written :
      Encodes address frame
        (3, expected (config_head code (at 16 8 mode ∷ [])))
        (and_then (write_fields (config_head code []) (init_frame address 3 frame)) put_mode)
  mode-Written =
      subst (Encodes address frame (3, expected (config_head code (at 16 8 mode ∷ []))))
        (sym mode-fields)
        (Laid-Encodes address frame 3 (config_head code (at 16 8 mode ∷ [])) (omega arith)
          (omega arith))

mode-Encodes :
    (address : CanAddr) (frame : CanFrame) (b : Bool) (code mode : ℕ)
    → (b ≡ true → code < 256)
    → mode < 256
    → Encodes address frame
        (3, if b then expected (config_head code (at 16 8 mode ∷ [])) else refused)
        (if not b
          then (FleetErr.invalid_argument, frame)
          else and_then
              (write_fields (config_head code []) (init_frame address 3 frame))
              (λ f. (FleetErr.ok, record f { bytes = set f.bytes 2 mode })))
unfolding put_mode
mode-Encodes address frame false code mode hc hm = (refl, refl)
mode-Encodes address frame true code mode hc hm = mode-Written address frame code mode (hc refl) hm

pub payload-Encodes :
    (F : Type 0) ⦃fl : Floats F⦄ ⦃law : IsFloats F⦄ (address : CanAddr) (frame : CanFrame)
    (code : ℕ) (v : ConfigSetValue F fl.Double)
    → IsConfigValue v
    → Encodes address frame (wire_config F code v) (encode_config_payload F address code v frame)
unfolding wire_config encode_config_payload encode_mode encode_u16_range encode_timeout encode_ratio
    encode_acceleration encode_float_range encode_pid
payload-Encodes F address frame code (float_value v) h =
    value-Encodes address frame (code == ConfigSetCode.accel) code _ (λ e. ground arith)
      (checked_u16_scaled_lem F _ _ 0xffff (omega arith))
payload-Encodes F address frame code (u8_value v) h =
    mode-Encodes address frame (code == ConfigSetCode.comm_mode) code v (λ e. ground arith) h
payload-Encodes F address frame code (double_value v) h =
    value-Encodes address frame (code == ConfigSetCode.torque_ratio) code _ (λ e. ground arith)
      (checked_u16_scaled_lem F _ _ 0xffff (omega arith))
payload-Encodes F address frame code (u16_range_value v) h =
    u16_range-Encodes address frame (code == ConfigSetCode.pvt_kp || code == ConfigSetCode.pvt_kd)
      code v (λ e. ground arith) h.0 h.1
payload-Encodes F address frame code (float_range_value v) h =
    range-Encodes address frame (code == ConfigSetCode.pvt_kp || code == ConfigSetCode.pvt_kd) code
      _ _ _ (λ e. ground arith) (two_u16-lt F v.min v.max 1 1)
      (range-Encodes address frame
        (code == ConfigSetCode.pvt_position_limit_r
          || code == ConfigSetCode.pvt_velocity_limit_radps)
        code _ _ _ (λ e. ground arith) (two_i16-lt F v.min v.max 100)
        (range-Encodes address frame
          (code == ConfigSetCode.pvt_torque_limit_nm || code == ConfigSetCode.pvt_current_limit)
          code _ _ _ (λ e. ground arith) (two_i16-lt F v.min v.max 10) (refl, refl)))
payload-Encodes F address frame code (milliseconds_value v) h =
    timeout-Encodes address frame (code == ConfigSetCode.can_timeout) code v (λ e. ground arith)
payload-Encodes F address frame code (pid_value v) h =
    range-Encodes address frame (code == ConfigSetCode.current_loop_pi) code _ _ _
      (λ e. ground arith) (two_u16-lt F v.kp v.ki 10000 10)
      (range-Encodes address frame (code == ConfigSetCode.velocity_loop_pi) code _ _ _
        (λ e. ground arith) (two_u16-lt F v.kp v.ki 100000 100000)
        (range-Encodes address frame (code == ConfigSetCode.position_loop_pd) code _ _ _
          (λ e. ground arith) (two_u16-lt F v.kp v.kd 100000 100000) (refl, refl)))
