-- ===== src/Driver/Receiving.antt =====
-- src/driver_motor.cc: what the driver does with the bytes that the channel receives. The devices
-- stand in the order in which they were bound, with the model of each beside them.
use servo_fleet.Prelude.{
  ℕ, zero, suc, ◌==◌, if◌then◌else◌, List, [], ◌∷◌, Option, none, some, get_elem?,
}
use servo_fleet.Error.{Result, expected, unexpected}
use servo_fleet.CanFrame.{CanFrame, broadcast_can_id}
use servo_fleet.Floats.{Floats, literal}
use servo_fleet.Feedback.{Range, QueryFeedback, Feedback}
use servo_fleet.Specs.{MotorEcSpec}
use servo_fleet.MotorCodec.{decode_each}
use servo_fleet.CanCodec.Parsing.{parse_feedback}
use servo_fleet.Device.{MotorDevice, apply}
use servo_fleet.Driver.{Routing, route_of}

pub record Receiver (F : Type 0) : Type 0 where
  pub routing : Routing
  pub specs : List (Option MotorEcSpec)
  pub motors : List (MotorDevice F)

module _ (F : Type 0) ⦃fl : Floats F⦄ where
  abbrev pub pi : F
  pi = fl.lit (literal 3_1415_9265_3589_7932_3846 20)

  unfoldable pub rad_to_deg : F → F
  rad_to_deg x = fl.fmul x (fl.fdiv (fl.lit (literal 180 0)) pi)

  unfoldable pub radps_to_rpm : F → F
  radps_to_rpm x = fl.fmul x (fl.fdiv (fl.lit (literal 60 0)) (fl.fmul (fl.lit (literal 2 0)) pi))

  -- `route.spec != nullptr ? &route.spec->current_a : nullptr`.
  unfoldable pub current_range : Option (Option MotorEcSpec) → Option (Range F)
  current_range (some (some spec)) =
      some (record { min = fl.lit spec.current_a.min; max = fl.lit spec.current_a.max })
  current_range (some none) = none
  current_range none = none

  -- The device in slot `slot`, after the feedback.
  unfoldable pub apply_at : List (MotorDevice F) → ℕ → Feedback F → ℕ → List (MotorDevice F)
  unfolding apply rad_to_deg radps_to_rpm
  apply_at [] slot response now = []
  apply_at (d ∷ ds) zero response now = (apply rad_to_deg radps_to_rpm d response now).1 ∷ ds
  apply_at (d ∷ ds) (suc slot) response now = d ∷ apply_at ds slot response now

  -- A reply that cannot be parsed changes nothing.
  unfoldable pub with_response : ℕ → ℕ → Receiver F → Result (Feedback F) → Receiver F
  unfolding apply_at
  with_response now slot r (unexpected e) = r
  with_response now slot r (expected response) = record r {
    motors = apply_at r.motors slot response now;
  }

  -- A frame without a route changes nothing.
  unfoldable pub with_route : QueryFeedback F → ℕ → Receiver F → CanFrame → Option ℕ → Receiver F
  unfolding with_response parse_feedback current_range
  with_route blank now r frame none = r
  with_route blank now r frame (some slot) =
      with_response now slot r
        (parse_feedback F blank frame (current_range (get_elem? r.specs slot)))

  -- `handle_frame` on the port of the frame.
  unfoldable pub handle_frame : QueryFeedback F → ℕ → Receiver F → CanFrame → Receiver F
  unfolding with_route
  handle_frame blank received_at r frame =
      if frame.id == broadcast_can_id
      then r
      else with_route blank received_at r frame (route_of r.routing frame.port frame.id)

  unfoldable pub handle_packet : QueryFeedback F → ℕ → List ℕ → Receiver F → Receiver F
  unfolding handle_frame
  handle_packet blank received_at bytes r =
      (decode_each bytes (some (handle_frame blank received_at)) r).1
