-- ===== src/CanCodec/Tests.antt =====
-- Commands and replies, with whole numbers for floats.
use servo_fleet.Prelude.{ℕ, ◌≤◌, ◌≡◌, arith, List, [], ◌∷◌, none}
use servo_fleet.CanFrame.{empty_frame}
use servo_fleet.Floats.{ℤ, pos}
use servo_fleet.Floats.Whole.{whole_floats, whole_floats-IsFloats}
use servo_fleet.Feedback.{MotorErr}
use servo_fleet.CanCodec.Examples.{motor, whole_command, status_frame, blank}
use servo_fleet.CanCodec.Checked.{checked_symmetric}
use servo_fleet.CanCodec.Configuring.{encode}
use servo_fleet.CanCodec.Wire.{Encodes, wire_of}
use servo_fleet.CanCodec.Encoding.{encode_lem}
use servo_fleet.CanCodec.Bounds.{Passes, checked_symmetric_lem}
use servo_fleet.CanCodec.Querying.{query_code, decode_query_result}
use servo_fleet.CanCodec.Parsing.{parse_feedback}
use servo_fleet.CanCodec.Replies.{reply_of}
use servo_fleet.CanCodec.Replying.{parse_feedback_lem}
use servo_fleet.CanCodec.Answers.{Decodes, decode_query_result_lem}
use servo_fleet.CanCodec.Failures.{FailsWell, parse_feedback-FailsWell}

abbrev version_answer : List ℕ
version_answer = 1 ∷ 2 ∷ 3 ∷ 4 ∷ 5 ∷ 6 ∷ []

encode_lem_example :
    Encodes motor empty_frame (wire_of ℤ whole_command) (encode ℤ motor whole_command empty_frame)
encode_lem_example = encode_lem ℤ motor whole_command empty_frame (omega arith)

checked_symmetric_lem_example :
    Passes (λ n. n ≤ 4095) (checked_symmetric ℤ (pos 3) (pos 18) 2047 4095)
checked_symmetric_lem_example = checked_symmetric_lem ℤ (pos 3) (pos 18) 2047 4095 (omega arith)

parse_feedback_lem_example :
    parse_feedback ℤ blank status_frame none ≡ reply_of ℤ blank status_frame none
parse_feedback_lem_example = parse_feedback_lem ℤ blank status_frame none (omega arith)

parse_feedback-FailsWell_example : FailsWell (parse_feedback ℤ blank status_frame none)
parse_feedback-FailsWell_example = parse_feedback-FailsWell ℤ blank status_frame none (omega arith)

decode_query_result_lem_example :
    Decodes
      (query_code 30)
      MotorErr.none
      version_answer
      (decode_query_result ℤ blank 30 MotorErr.none version_answer)
decode_query_result_lem_example = decode_query_result_lem ℤ blank 30 MotorErr.none version_answer
