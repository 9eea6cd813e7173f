-- ===== src/CanCodec/Failures.antt =====
-- Which errors a reply can give.
use servo_fleet.Prelude.{
  ℕ, ◌≡◌, ◌⊎◌, inl, inr, refl, arith, Bool, true, false, if◌then◌else◌, List, ltb, Option, none,
  some, ◌==◌, sym, subst, ◌||◌, take, drop, ◌-◌,
}
use servo_fleet.Error.{FleetErr, Result, expected, unexpected, transform}
use servo_fleet.CanFrame.{CanFrame, IsFrame}
use servo_fleet.Feedback.{
  MotorErr, Range, ConfigQueryCode, QueryFeedback, Feedback, ConfigAckFeedback, query_feedback,
  config_ack_feedback,
}
use servo_fleet.Floats.{Floats}
use servo_fleet.CanCodec.Querying.{query_code, decode_query_result}
use servo_fleet.CanCodec.Answers.{Decodes, decode_query_result_lem}
use servo_fleet.CanCodec.Parsing.{parse_feedback, parse_error}
use servo_fleet.CanCodec.Replies.{
  bits_at, reply_len, broadcast_ack, reply_value, typed_reply, reply_of,
}
use servo_fleet.CanCodec.Replying.{parse_feedback_lem}

-- A failure is one of two errors.
abbrev pub FailsWell : {A : Type 0} → Result A → Type 0
FailsWell (expected a) = Unit
FailsWell (unexpected e) = (e ≡ FleetErr.protocol_error) ⊎ (e ≡ FleetErr.unsupported)

Decodes-FailsWell :
    {F : Type 0} (o : Option ConfigQueryCode) (error : MotorErr) (payload : List ℕ)
    (r : Result (QueryFeedback F))
    → Decodes o error payload r
    → FailsWell r
Decodes-FailsWell none error payload r h = subst FailsWell (sym h) (inr refl)
Decodes-FailsWell (some code) error payload (expected v) h = omega arith
Decodes-FailsWell (some code) error payload (unexpected e) h = inl h.1

transform-FailsWell :
    {A B : Type 0} (f : A → B) (r : Result A) → FailsWell r → FailsWell (transform f r)
transform-FailsWell f (expected a) h = h
transform-FailsWell f (unexpected e) h = h

-- A test before a result that fails well.
if-FailsWell :
    {A : Type 0} (b : Bool) (r s : Result A)
    → FailsWell r
    → FailsWell s
    → FailsWell (if b then r else s)
if-FailsWell true r s h k = h
if-FailsWell false r s h k = k

module _ (F : Type 0) ⦃fl : Floats F⦄ (blank : QueryFeedback F) (frame : CanFrame)
    (range : Option (Range F)) where
  value-FailsWell :
      (kind : ℕ) (error : MotorErr) → FailsWell (reply_value F blank frame range kind error)
  unfolding reply_value
  value-FailsWell kind error =
      let payload = take (frame.len - 2) (drop 2 frame.bytes) in
      let raw = bits_at frame 8 8 in
      let answer =
        transform-FailsWell {B = Feedback F} query_feedback
          (decode_query_result F blank raw error payload)
          (Decodes-FailsWell (query_code raw) error payload _
            (decode_query_result_lem F blank raw error payload)) in
      if-FailsWell (kind == 1) _ _ (omega arith) (
        if-FailsWell (kind == 2) _ _ (omega arith) (
          if-FailsWell (kind == 3) _ _ (omega arith) (
            if-FailsWell (kind == 4) _ _ (omega arith)
              (if-FailsWell (kind == 5) _ _ answer (omega arith)))))

  typed-FailsWell : FailsWell (typed_reply F blank frame range)
  unfolding typed_reply
  typed-FailsWell =
      let kind = bits_at frame 0 3 in
      if-FailsWell (reply_len kind == 0) _ _ (inr refl) (
        if-FailsWell (ltb frame.len (reply_len kind)) _ _ (inl refl)
          (value-FailsWell kind (parse_error (bits_at frame 3 5))))

  reply-FailsWell : FailsWell (reply_of F blank frame range)
  unfolding reply_of
  reply-FailsWell =
      if-FailsWell (frame.len == 0 || ltb 8 frame.len) _ _ (inl refl) (go (broadcast_ack frame))
    where
      go :
          (o : Option ConfigAckFeedback)
          → FailsWell (elim o as (λ x. Result (Feedback F)) [
            | some ack ↦ expected (config_ack_feedback ack)
            | none ↦ typed_reply F blank frame range
          ])
      go none = typed-FailsWell
      go (some ack) = omega arith

-- A frame that `parse_feedback` refuses is a protocol error or unsupported, and nothing else: the
-- errors of reading a field never come out.
pub parse_feedback-FailsWell :
    (F : Type 0) ⦃fl : Floats F⦄ (blank : QueryFeedback F) (frame : CanFrame)
    (range : Option (Range F))
    → IsFrame frame
    → FailsWell (parse_feedback F blank frame range)
parse_feedback-FailsWell F blank frame range typed =
    subst FailsWell (sym (parse_feedback_lem F blank frame range typed))
      (reply-FailsWell F blank frame range)
