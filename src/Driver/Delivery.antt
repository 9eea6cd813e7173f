-- ===== src/Driver/Delivery.antt =====
-- Feedback reaches the device that its frame is routed to, and no other.
use mathlib.Core.List.{foldl}
use mathlib.Core.Path.{fun_ext}
use mathlib.Core.Option
use mathlib.Core.Option.{Option}
use servo_fleet.Prelude.{
  ℕ, zero, suc, ◌≤◌, ◌==◌, ◌≡◌, refl, ap, ◌∙◌, arith, true, false, if◌then◌else◌, List, [], ◌∷◌,
  length, none, some, get_elem?, Bool,
}
use servo_fleet.Error.{Result, expected, unexpected}
use servo_fleet.CanFrame.{CanFrame}
use servo_fleet.Floats.{Floats}
use servo_fleet.Feedback.{QueryFeedback, Feedback}
use servo_fleet.MotorCodec.{all_valid, supported_type}
use servo_fleet.MotorCodec.Wire.{packet, AreFrames}
use servo_fleet.MotorCodec.Decode.{decode_each-packet}
use servo_fleet.CanCodec.Parsing.{parse_feedback}
use servo_fleet.Device.{MotorDevice, apply}
use servo_fleet.Driver.{route_of}
use servo_fleet.Driver.Receiving.{
  Receiver, rad_to_deg, radps_to_rpm, current_range, apply_at, with_response, with_route,
  handle_frame, handle_packet,
}

module _ (F : Type 0) ⦃fl : Floats F⦄ where
  abbrev pub after : Feedback F → ℕ → MotorDevice F → MotorDevice F
  after response now d = (apply (rad_to_deg F) (radps_to_rpm F) d response now).1

  apply_at_lem :
      (ds : List (MotorDevice F)) (to slot : ℕ) (response : Feedback F) (now : ℕ)
      → get_elem? (apply_at F ds to response now) slot ≡ (
          if to == slot
          then Option.map (after response now) (get_elem? ds slot)
          else get_elem? ds slot)
  unfolding apply_at
  apply_at_lem [] zero zero response now = refl
  apply_at_lem [] zero (suc slot) response now = ground arith
  apply_at_lem [] (suc to) zero response now = ground arith
  apply_at_lem [] (suc to) (suc slot) response now = ground arith
  apply_at_lem (d ∷ ds) zero zero response now = refl
  apply_at_lem (d ∷ ds) zero (suc slot) response now = ground arith
  apply_at_lem (d ∷ ds) (suc to) zero response now = ground arith
  apply_at_lem (d ∷ ds) (suc to) (suc slot) response now =
      ground (arith, apply_at_lem ds to slot response now)

  -- What a reply to slot `to` makes of the device in `slot`.
  abbrev pub responded : ℕ → (to slot : ℕ) → Result (Feedback F) → MotorDevice F → MotorDevice F
  responded now to slot (unexpected e) d = d
  responded now to slot (expected response) d = if to == slot then after response now d else d

  abbrev pub delivered_to :
      QueryFeedback F → ℕ → Receiver F → ℕ → CanFrame → Option ℕ → MotorDevice F → MotorDevice F
  delivered_to blank now r slot frame none d = d
  delivered_to blank now r slot frame (some to) d =
      responded now to slot (parse_feedback F blank frame (current_range F (get_elem? r.specs to)))
        d

  -- What a frame makes of it.
  unfoldable pub delivered :
      QueryFeedback F → ℕ → Receiver F → ℕ → CanFrame → MotorDevice F → MotorDevice F
  delivered blank now r slot frame d =
      if frame.id == 0x7ff
      then d
      else delivered_to blank now r slot frame (route_of r.routing frame.port frame.id) d

  map-id : {A : Type 0} (o : Option A) → o ≡ Option.map (λ x. x) o
  map-id none = refl
  map-id (some a) = refl

  map-if :
      {A : Type 0} (b : Bool) (f : A → A) (o : Option A)
      → (if b then Option.map f o else o) ≡ Option.map (λ a. if b then f a else a) o
  map-if true f o = refl
  map-if false f o = map-id o

  module _ (blank : QueryFeedback F) (now : ℕ) (r : Receiver F) (slot : ℕ) where
    responded_lem :
        (to : ℕ) (p : Result (Feedback F))
        → get_elem? (with_response F now to r p).motors slot
          ≡ Option.map (responded now to slot p) (get_elem? r.motors slot)
    unfolding with_response
    responded_lem to (unexpected e) = map-id (get_elem? r.motors slot)
    responded_lem to (expected response) =
        apply_at_lem r.motors to slot response now
        ∙ map-if (to == slot) (after response now) (get_elem? r.motors slot)

    routed_lem :
        (frame : CanFrame) (o : Option ℕ)
        → get_elem? (with_route F blank now r frame o).motors slot
          ≡ Option.map (delivered_to blank now r slot frame o) (get_elem? r.motors slot)
    unfolding with_route
    routed_lem frame none = map-id (get_elem? r.motors slot)
    routed_lem frame (some to) =
        responded_lem to (parse_feedback F blank frame (current_range F (get_elem? r.specs to)))

    guarded :
        (b : Bool) (s : Receiver F) (f : MotorDevice F → MotorDevice F)
        → get_elem? s.motors slot ≡ Option.map f (get_elem? r.motors slot)
        → get_elem? (if b then r else s).motors slot
          ≡ Option.map (λ d. if b then d else f d) (get_elem? r.motors slot)
    guarded true s f h = map-id (get_elem? r.motors slot)
    guarded false s f h = h

    handle_frame_lem :
        (frame : CanFrame)
        → get_elem? (handle_frame F blank now r frame).motors slot
          ≡ Option.map (delivered blank now r slot frame) (get_elem? r.motors slot)
    unfolding handle_frame delivered
    handle_frame_lem frame =
        let to = route_of r.routing frame.port frame.id in
        guarded (frame.id == 0x7ff) (with_route F blank now r frame to)
          (delivered_to blank now r slot frame to) (routed_lem frame to)

  -- The frames of a packet, one after another.
  abbrev pub delivered_all :
      QueryFeedback F → ℕ → Receiver F → ℕ → List CanFrame → MotorDevice F → MotorDevice F
  delivered_all blank now r slot [] d = d
  delivered_all blank now r slot (frame ∷ frames) d =
      delivered_all blank now r slot frames (delivered blank now r slot frame d)

  map-after :
      {A : Type 0} (f g : A → A) (o : Option A)
      → Option.map f (Option.map g o) ≡ Option.map (λ a. f (g a)) o
  map-after f g none = refl
  map-after f g (some a) = refl

  responded-tables :
      (now to : ℕ) (r : Receiver F) (p : Result (Feedback F))
      → with_response F now to r p ≡ record r { motors = (with_response F now to r p).motors }
  unfolding with_response
  responded-tables now to r (unexpected e) = refl
  responded-tables now to r (expected response) = refl

  routed-tables :
      (blank : QueryFeedback F) (now : ℕ) (r : Receiver F) (frame : CanFrame) (o : Option ℕ)
      → with_route F blank now r frame o
        ≡ record r { motors = (with_route F blank now r frame o).motors }
  unfolding with_route
  routed-tables blank now r frame none = refl
  routed-tables blank now r frame (some to) =
      responded-tables now to r
        (parse_feedback F blank frame (current_range F (get_elem? r.specs to)))

  if-tables :
      (b : Bool) (r s : Receiver F)
      → s ≡ record r { motors = s.motors }
      → (if b then r else s) ≡ record r { motors = (if b then r else s).motors }
  if-tables true r s h = refl
  if-tables false r s h = h

  -- A frame changes no route and no model.
  same_tables :
      (blank : QueryFeedback F) (now : ℕ) (r : Receiver F) (frame : CanFrame)
      → handle_frame F blank now r frame
        ≡ record r { motors = (handle_frame F blank now r frame).motors }
  unfolding handle_frame
  same_tables blank now r frame =
      let to = route_of r.routing frame.port frame.id in
      if-tables (frame.id == 0x7ff) r (with_route F blank now r frame to)
        (routed-tables blank now r frame to)

  delivered-motors :
      (blank : QueryFeedback F) (now : ℕ) (r : Receiver F) (slot : ℕ) (ds : List (MotorDevice F))
      (frames : List CanFrame) (d : MotorDevice F)
      → delivered_all blank now (record r { motors = ds }) slot frames d
        ≡ delivered_all blank now r slot frames d
  unfolding delivered
  delivered-motors blank now r slot ds [] d = refl
  delivered-motors blank now r slot ds (frame ∷ frames) d =
      delivered-motors blank now r slot ds frames (delivered blank now r slot frame d)

  frames_lem :
      (blank : QueryFeedback F) (now : ℕ) (r : Receiver F) (slot : ℕ) (frames : List CanFrame)
      → get_elem? (foldl (handle_frame F blank now) r frames).motors slot
        ≡ Option.map (delivered_all blank now r slot frames) (get_elem? r.motors slot)
  frames_lem blank now r slot [] = map-id (get_elem? r.motors slot)
  frames_lem blank now r slot (frame ∷ frames) =
      let next = handle_frame F blank now r frame in
      frames_lem blank now next slot frames
      ∙ ap (λ t. Option.map (delivered_all blank now t slot frames) (get_elem? next.motors slot))
          (same_tables blank now r frame)
      ∙ ap (λ f. Option.map f (get_elem? next.motors slot))
          (fun_ext (delivered-motors blank now r slot next.motors frames))
      ∙ ap (Option.map (delivered_all blank now r slot frames))
          (handle_frame_lem blank now r slot frame)
      ∙ map-after (delivered_all blank now r slot frames) (delivered blank now r slot frame)
          (get_elem? r.motors slot)

-- A packet of up to 32 valid frames, of either type, changes the device in a slot frame by frame, in
-- the order of the packet: by the feedback of each frame whose identifier and port are routed to
-- that slot, if it is not on the broadcast identifier and can be parsed in the range of the model
-- of that slot, and by no other frame.
pub handle_packet_lem :
    (F : Type 0) ⦃fl : Floats F⦄ (blank : QueryFeedback F) (now kind : ℕ) (r : Receiver F)
    (slot : ℕ) (frames : List CanFrame)
    → supported_type kind ≡ true
    → AreFrames frames
    → all_valid frames ≡ true
    → length frames ≤ 32
    → get_elem? (handle_packet F blank now (packet kind frames) r).motors slot
      ≡ Option.map (delivered_all F blank now r slot frames) (get_elem? r.motors slot)
unfolding handle_packet
handle_packet_lem F blank now kind r slot frames ok h v le =
    ap (λ p. get_elem? p.1.motors slot)
      (decode_each-packet (handle_frame F blank now) kind frames r ok h v le)
    ∙ frames_lem F blank now r slot frames
