-- ===== src/Device/Ranges.antt =====
-- src/device_motor.cc: the getters of the ranges of a motor, which fall back on the table of models.
use servo_fleet.Prelude.{
  ℕ, ◌+◌, ◌%◌, ◌^◌, ◌<◌, ◌≡◌, refl, ap, ◌∙◌, subst, arith, if◌then◌else◌, List, [], ◌∷◌, length,
  ◌==◌, Option, none, some,
}
use servo_fleet.Feedback.{
  Feedback, QueryFeedback, ConfigQueryCode, Range, status_feedback, position_feedback,
  velocity_feedback, config_ack_feedback, query_feedback, brake_status_feedback,
}
use servo_fleet.Floats.{Floats, Literal}
use servo_fleet.Specs.{MotorEcSpec}
use servo_fleet.Device.{
  Sample, received, MotorDevice, new_device, set_sample, apply_query, apply_feedback_value, apply,
}

-- `range_t<float>` of a row of the table, whose literals the compiler makes floats.
abbrev pub range_of : (F : Type 0) → ⦃fl : Floats F⦄ → Range Literal → Range F
range_of F ⦃fl⦄ r = record { min = fl.lit r.min; max = fl.lit r.max }

-- `now` is `steady_clock::now()`.
unfoldable pub table_sample : {F : Type 0} → ℕ → Range F → Sample (Range F)
table_sample now value = set_sample value now 1

module _ (F : Type 0) ⦃fl : Floats F⦄ (ec_spec : Option MotorEcSpec) (now : ℕ) where
  -- `sample || ec_spec_ == nullptr ? sample : table_sample(…)`, with the range of the table that the
  -- getter names.
  unfoldable pub or_table : (MotorEcSpec → Range Literal) → Sample (Range F) → Sample (Range F)
  or_table entry sample = elim ec_spec [
    | none ↦ sample
    | some spec ↦ if received sample then sample else table_sample now (range_of F (entry spec))
  ]

  unfoldable pub pvt_kp_range : MotorDevice F → Sample (Range F)
  pvt_kp_range d = or_table (λ spec. spec.kp) d.pvt_kp_range

  unfoldable pub pvt_kd_range : MotorDevice F → Sample (Range F)
  pvt_kd_range d = or_table (λ spec. spec.kd) d.pvt_kd_range

  unfoldable pub pvt_position_limit_r : MotorDevice F → Sample (Range F)
  pvt_position_limit_r d = or_table (λ spec. spec.pos_rad) d.pvt_position_limit_r

-- The range that a reply to a query of one of the three brings.
abbrev pub kp_reply : {F : Type 0} → ConfigQueryCode → QueryFeedback F → Option (Range F)
kp_reply code v = elim code [ ConfigQueryCode.pvt_kp_range ↦ some v.pvt_kp_range | _ ↦ none ]

abbrev pub kd_reply : {F : Type 0} → ConfigQueryCode → QueryFeedback F → Option (Range F)
kd_reply code v = elim code [ ConfigQueryCode.pvt_kd_range ↦ some v.pvt_kd_range | _ ↦ none ]

abbrev pub position_reply : {F : Type 0} → ConfigQueryCode → QueryFeedback F → Option (Range F)
position_reply code v = elim code [
  | ConfigQueryCode.pvt_position_limit_r ↦ some v.pvt_position_limit_r
  | _ ↦ none
]

-- The sample after a reply.
abbrev replied : {F : Type 0} → ℕ → ℕ → Option (Range F) → Sample (Range F) → Sample (Range F)
replied now seq none old = old
replied now seq (some r) old = set_sample r now seq

-- The three samples of `e`, where those of `d` were and a frame brought these ranges.
abbrev RangesAfter :
    {F : Type 0}
    → ℕ
    → ℕ
    → Option (Range F)
    → Option (Range F)
    → Option (Range F)
    → MotorDevice F
    → MotorDevice F
    → Type 0
RangesAfter at seq kp kd position d e =
    (e.pvt_kp_range ≡ replied at seq kp d.pvt_kp_range)
    × (e.pvt_kd_range ≡ replied at seq kd d.pvt_kd_range)
    × (e.pvt_position_limit_r ≡ replied at seq position d.pvt_position_limit_r)

query_ranges :
    {F : Type 0} (code : ConfigQueryCode) (v : QueryFeedback F) (at seq : ℕ) (d : MotorDevice F)
    → RangesAfter at seq
        (kp_reply code v)
        (kd_reply code v)
        (position_reply code v)
        d
        (apply_query code v at seq d)
unfolding apply_query
query_ranges code v at seq d =
    elim code
      as (λ k.
        RangesAfter at seq (kp_reply k v) (kd_reply k v) (position_reply k v) d
          (apply_query k v at seq d)) [
            | ConfigQueryCode.position ↦ (refl, refl, refl)
            | _ ↦ (refl, refl, refl)
          ]

query_seq :
    {F : Type 0} (code : ConfigQueryCode) (v : QueryFeedback F) (at seq : ℕ) (d : MotorDevice F)
    → (apply_query code v at seq d).sample_seq ≡ d.sample_seq
unfolding apply_query
query_seq code v at seq d =
    elim code as (λ k. (apply_query k v at seq d).sample_seq ≡ d.sample_seq) [
      | ConfigQueryCode.position ↦ refl
      | _ ↦ refl
    ]

-- The range that a frame brings, for each of the three readings of a reply.
abbrev pub in_feedback :
    {F : Type 0}
    → (ConfigQueryCode → QueryFeedback F → Option (Range F))
    → Feedback F
    → Option (Range F)
in_feedback reply (status_feedback v) = none
in_feedback reply (position_feedback v) = none
in_feedback reply (velocity_feedback v) = none
in_feedback reply (config_ack_feedback v) = none
in_feedback reply (query_feedback v) = reply v.code v
in_feedback reply (brake_status_feedback v) = none

-- The newest range that frames bring, each with its time, the newest frame first in the list.
abbrev pub newest :
    {F : Type 0}
    → (ConfigQueryCode → QueryFeedback F → Option (Range F))
    → List (Feedback F × ℕ)
    → Option (Range F)
newest reply [] = none
newest reply ((r, at) ∷ past) = elim (in_feedback reply r) [
  | none ↦ newest reply past
  | some v ↦ some v
]

-- What a sample shows: its value, once it was received.
abbrev pub shown : {T : Type 0} → Sample T → Option T
shown s = if s.seq == 0 then none else some s.value

-- What a device shows after frames.
abbrev Holds : {F : Type 0} → MotorDevice F → List (Feedback F × ℕ) → Type 0
Holds d past =
    (d.sample_seq ≡ length past)
    × (shown d.pvt_kp_range ≡ newest kp_reply past)
    × (shown d.pvt_kd_range ≡ newest kd_reply past)
    × (shown d.pvt_position_limit_r ≡ newest position_reply past)

shown-replied :
    {F : Type 0} (at seq : ℕ) (o : Option (Range F)) (old new : Sample (Range F))
    (before : Option (Range F))
    → 0 < seq
    → new ≡ replied at seq o old
    → shown old ≡ before
    → shown new ≡ elim o [ none ↦ before | some v ↦ some v ]
shown-replied at seq none old new before h e same = ap shown e ∙ same
shown-replied at seq (some v) old new before h e same = ap shown e ∙ ground arith

module _ {F : Type 0} (rad_to_deg radps_to_rpm : F → F) where
  -- The device after frames that it applied one after another, each at its time, the newest first.
  unfoldable pub applied_all : F → List (Feedback F × ℕ) → MotorDevice F
  unfolding apply
  applied_all zero_float [] = new_device zero_float
  applied_all zero_float ((r, at) ∷ past) =
      (apply rad_to_deg radps_to_rpm (applied_all zero_float past) r at).1

  frame_ranges :
      (d : MotorDevice F) (r : Feedback F) (at : ℕ)
      → RangesAfter at
          ((d.sample_seq + 1) % 2 ^ 64)
          (in_feedback kp_reply r)
          (in_feedback kd_reply r)
          (in_feedback position_reply r)
          d
          (apply rad_to_deg radps_to_rpm d r at).1
  unfolding apply apply_feedback_value
  frame_ranges d (status_feedback v) at = (refl, refl, refl)
  frame_ranges d (position_feedback v) at = (refl, refl, refl)
  frame_ranges d (velocity_feedback v) at = (refl, refl, refl)
  frame_ranges d (config_ack_feedback v) at = (refl, refl, refl)
  frame_ranges d (query_feedback v) at =
      let seq = (d.sample_seq + 1) % 2 ^ 64 in
      let start : MotorDevice F = record d {
        sample_seq = seq;
        motor_error = set_sample v.error at seq;
      } in
      query_ranges v.code v at seq start
  frame_ranges d (brake_status_feedback v) at = (refl, refl, refl)

  frame_seq :
      (d : MotorDevice F) (r : Feedback F) (at : ℕ)
      → (apply rad_to_deg radps_to_rpm d r at).1.sample_seq ≡ (d.sample_seq + 1) % 2 ^ 64
  unfolding apply apply_feedback_value
  frame_seq d (status_feedback v) at = refl
  frame_seq d (position_feedback v) at = refl
  frame_seq d (velocity_feedback v) at = refl
  frame_seq d (config_ack_feedback v) at = refl
  frame_seq d (query_feedback v) at =
      let seq = (d.sample_seq + 1) % 2 ^ 64 in
      query_seq v.code v at seq
        (record d { sample_seq = seq; motor_error = set_sample v.error at seq })
  frame_seq d (brake_status_feedback v) at = refl

  applied_all-Holds :
      (zero_float : F) (past : List (Feedback F × ℕ))
      → length past < 2 ^ 64
      → Holds (applied_all zero_float past) past
  unfolding applied_all
  applied_all-Holds zero_float [] h = (refl, refl, refl, refl)
  applied_all-Holds zero_float ((r, at) ∷ past) h =
      let before = applied_all zero_float past in
      let seq = (before.sample_seq + 1) % 2 ^ 64 in
      let (count, kp, kd, position) = applied_all-Holds zero_float past (omega arith) in
      let (kp_next, kd_next, position_next) = frame_ranges before r at in
      let some_seq : 0 < seq = omega arith in
      (
        frame_seq before r at ∙ omega arith,
        shown-replied at seq (in_feedback kp_reply r) before.pvt_kp_range _ _ some_seq kp_next kp,
        shown-replied at seq (in_feedback kd_reply r) before.pvt_kd_range _ _ some_seq kd_next kd,
        shown-replied at seq (in_feedback position_reply r) before.pvt_position_limit_r _ _ some_seq
            position_next position,
      )

-- A row of the table instead of a sample that was not received.
abbrev pub or_row :
    (F : Type 0)
    → ⦃fl : Floats F⦄ → (MotorEcSpec → Range Literal)
    → Option MotorEcSpec
    → Option (Range F)
    → Option (Range F)
or_row F entry none none = none
or_row F entry (some spec) none = some (range_of F (entry spec))
or_row F entry none (some v) = some v
or_row F entry (some spec) (some v) = some v

shown-or_table :
    {F : Type 0} ⦃fl : Floats F⦄ (ec_spec : Option MotorEcSpec) (now : ℕ)
    (entry : MotorEcSpec → Range Literal) (s : Sample (Range F)) (o : Option (Range F))
    → shown s ≡ o
    → shown (or_table F ec_spec now entry s) ≡ or_row F entry ec_spec o
unfolding or_table table_sample received
shown-or_table none now entry s none e = e
shown-or_table none now entry s (some v) e = e
shown-or_table {F} (some spec) now entry s o e =
    subst (λ x. shown (or_table F (some spec) now entry s) ≡ or_row F entry (some spec) x) e
      (ground arith)

-- The three getters after any frames, fewer than 2 ^ 64 of them: each shows the range of the newest
-- reply that brought one, else the row of the motor's model, else, for a motor without a row,
-- nothing.
pub ranges-applied_all :
    {F : Type 0} ⦃fl : Floats F⦄ (rad_to_deg radps_to_rpm : F → F) (zero_float : F)
    (ec_spec : Option MotorEcSpec) (now : ℕ) (past : List (Feedback F × ℕ))
    → length past < 2 ^ 64
    → let d = applied_all rad_to_deg radps_to_rpm zero_float past in
      (shown (pvt_kp_range F ec_spec now d)
        ≡ or_row F (λ spec. spec.kp) ec_spec (newest kp_reply past))
      × (shown (pvt_kd_range F ec_spec now d)
          ≡ or_row F (λ spec. spec.kd) ec_spec (newest kd_reply past))
      × (shown (pvt_position_limit_r F ec_spec now d)
          ≡ or_row F (λ spec. spec.pos_rad) ec_spec (newest position_reply past))
unfolding pvt_kp_range pvt_kd_range pvt_position_limit_r
ranges-applied_all f g zero_float ec_spec now past h =
    let (count, kp, kd, position) = applied_all-Holds f g zero_float past h in
    (
      shown-or_table ec_spec now (λ spec. spec.kp) _ _ kp,
      shown-or_table ec_spec now (λ spec. spec.kd) _ _ kd,
      shown-or_table ec_spec now (λ spec. spec.pos_rad) _ _ position,
    )
