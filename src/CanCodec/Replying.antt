-- ===== src/CanCodec/Replying.antt =====
-- `parse_feedback` of src/codec_can.cc on every branch.
use servo_fleet.Prelude.{
  ℕ, ◌≤◌, ◌<◌, ◌==◌, ◌||◌, ◌≡◌, ◌∙◌, ap, arith, if◌then◌else◌, Option, none, some, ltb, Bool-cases,
  inl, inr,
}
use servo_fleet.Error.{FleetErr, Result, expected, unexpected}
use servo_fleet.CanFrame.{CanFrame, IsFrame}
use servo_fleet.Feedback.{Range, QueryFeedback, Feedback, config_ack_feedback}
use servo_fleet.Floats.{Floats}
use servo_fleet.CanCodec.CanField.Feedback1
use servo_fleet.CanCodec.Parsing.{
  parse_error, parse_broadcast_response, parse_response, parse_typed, parse_feedback,
}
use servo_fleet.CanCodec.Replies.{
  bits_at, broadcast_ack, reply_len, reply_value, typed_reply, reply_of,
}
use servo_fleet.CanCodec.ReplyValues.{
  read_value, status_lem, position_lem, velocity_lem, ack_lem, query_lem, brake_lem,
}

module _ (F : Type 0) ⦃fl : Floats F⦄ (blank : QueryFeedback F) (frame : CanFrame)
    (typed : IsFrame frame) (small : frame.len ≤ 8) where
  response_lem :
      (range : Option (Range F)) (kind error : ℕ)
      → parse_response F blank frame range kind error ≡ (
          if reply_len kind == 0
          then unexpected FleetErr.unsupported
          else if ltb frame.len (reply_len kind)
          then unexpected FleetErr.protocol_error
          else reply_value F blank frame range kind (parse_error error))
  unfolding parse_response
  response_lem range kind error = elim (Bool-cases (kind == 1)) [
    | inl e1 ↦
        let is : kind ≡ 1 = ground arith in
        rw is (status_lem F blank frame typed small (parse_error error) range)
    | inr e1 ↦ elim (Bool-cases (kind == 2)) [
      | inl e2 ↦
          let is : kind ≡ 2 = ground arith in
          rw is (position_lem F blank frame typed small (parse_error error) range)
      | inr e2 ↦ elim (Bool-cases (kind == 3)) [
        | inl e3 ↦
            let is : kind ≡ 3 = ground arith in
            rw is (velocity_lem F blank frame typed small (parse_error error) range)
        | inr e3 ↦ elim (Bool-cases (kind == 4)) [
          | inl e4 ↦
              let is : kind ≡ 4 = ground arith in
              rw is (ack_lem F blank frame typed small (parse_error error) range)
          | inr e4 ↦ elim (Bool-cases (kind == 5)) [
            | inl e5 ↦
                let is : kind ≡ 5 = ground arith in
                rw is (query_lem F blank frame typed small (parse_error error) range)
            | inr e5 ↦ elim (Bool-cases (kind == 6)) [
              | inl e6 ↦
                  let is : kind ≡ 6 = ground arith in
                  rw is (brake_lem F blank frame typed small (parse_error error) range)
              | inr e6 ↦ rw (e1, e2, e3, e4, e5, e6)
            ]
          ]
        ]
      ]
    ]
  ]

  typed_lem :
      (range : Option (Range F))
      → 0 < frame.len
      → parse_typed F blank frame range ≡ typed_reply F blank frame range
  unfolding parse_typed typed_reply
  typed_lem range h =
      rw
        (
          read_value F blank frame typed small Feedback1.kind (omega arith),
          read_value F blank frame typed small Feedback1.error (omega arith),
        )
        (response_lem range (bits_at frame 0 3) (bits_at frame 3 5))

  broadcast_lem :
      (if frame.id == 0x7ff
        then parse_broadcast_response frame
        else unexpected FleetErr.unsupported)
      ≡ (elim (broadcast_ack frame) [
        | some ack ↦ expected ack
        | none ↦ unexpected FleetErr.unsupported
      ])
  unfolding parse_broadcast_response broadcast_ack
  broadcast_lem = ground arith

  broadcast_or :
      (typed_result : Result (Feedback F))
      → (if frame.id == 0x7ff
          then elim (parse_broadcast_response frame) [
            | expected response ↦ expected (config_ack_feedback response)
            | unexpected e ↦ typed_result
          ]
          else typed_result)
        ≡ elim (broadcast_ack frame) [
          | some ack ↦ expected (config_ack_feedback ack)
          | none ↦ typed_result
        ]
  unfolding parse_broadcast_response broadcast_ack
  broadcast_or typed_result = ground arith

-- `parse_feedback` is the reply that the bits of the frame's data spell: a protocol error if the
-- frame is empty or longer than eight bytes, else the acknowledgement if the frame is one on the
-- broadcast identifier, and else by the type in its first three bits: `unsupported` for a type that
-- there is not, a protocol error if the frame is shorter than that type needs, and the feedback with
-- its fields decoded; no read of a field fails on the way.
pub parse_feedback_lem :
    (F : Type 0) ⦃fl : Floats F⦄ (blank : QueryFeedback F) (frame : CanFrame)
    (range : Option (Range F))
    → IsFrame frame
    → parse_feedback F blank frame range ≡ reply_of F blank frame range
unfolding parse_feedback reply_of
parse_feedback_lem F blank frame range typed =
    elim (Bool-cases (frame.len == 0 || ltb 8 frame.len)) [
      | inl bad ↦ rw bad
      | inr good ↦
          let small : frame.len ≤ 8 = ground arith in
          let some_bytes : 0 < frame.len = ground arith in
          rw good (
            broadcast_or F blank frame typed small (parse_typed F blank frame range)
            ∙ ap
                (λ t. elim (broadcast_ack frame) [
                  | some ack ↦ expected (config_ack_feedback ack)
                  | none ↦ t
                ])
                (typed_lem F blank frame typed small range some_bytes))
    ]
