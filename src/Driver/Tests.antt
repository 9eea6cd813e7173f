-- ===== src/Driver/Tests.antt =====
-- One frame on a channel of two slots, and two motors bound.
use servo_fleet.Prelude.{
  [], ◌∷◌, some, ◌≡◌, arith, ap, ◌&&◌, if◌then◌else◌, true, false, ℕ, List, length, ◌++◌, ◌+◌, ◌≢◌,
  refl, none, get_elem?,
}
use mathlib.Core.List.{foldl}
use servo_fleet.Error.{FleetErr}
use servo_fleet.CanFrame.{CanFrame, CanAddr, valid}
use servo_fleet.Floats.{ℤ, pos}
use servo_fleet.Floats.Whole.{whole_floats, whole_floats-IsFloats}
use servo_fleet.MotorCodec.{supported_type, all_valid, decode_each}
use servo_fleet.MotorCodec.Wire.{packet}
use servo_fleet.CanCodec.Examples.{whole_command, status_frame, blank}
use servo_fleet.Device.{new_device}
use servo_fleet.Channel.Realtime.{RealtimeUdpChannel, Surroundings, SendOutcome, attempts}
use servo_fleet.Channel.Realtime.Packets.{datagrams}
use servo_fleet.Channel.Realtime.Queueing.{Ready}
use servo_fleet.Channel.Realtime.Start.{realtime_udp_channel-Ready}
use servo_fleet.Driver.{send_frames, Routing, bind_motor, route_of}
use servo_fleet.Driver.Sending.{send_frames_spec, send_frames_lem}
use servo_fleet.Driver.Routes.{route_of-bind_motor}
use servo_fleet.Driver.Receiving.{Receiver, handle_packet}
use servo_fleet.Driver.Delivery.{delivered_all, handle_packet_lem}
use servo_fleet.Driver.Crossing.{Accepts, tx_rounds, send_frames-tx_rounds}
use servo_fleet.Driver.Batch.{new_batch, flush, push}
use servo_fleet.Driver.Flushing.{IsBatch, Does, pending, emptied, flush_spec, emptied-IsBatch}
use servo_fleet.Driver.Commanding.{flush_lem, push_spec, push_lem}

abbrev two_slots : RealtimeUdpChannel
two_slots = (realtime_udp_channel-Ready 7 2 (omega arith)).0

abbrev ready : Ready 2 two_slots []
ready = (realtime_udp_channel-Ready 7 2 (omega arith)).2

abbrev frame : CanFrame
frame = record {
  port = 2;
  id = 0x123;
  extended = false;
  bytes = 1 ∷ 2 ∷ 3 ∷ 4 ∷ 5 ∷ 6 ∷ 7 ∷ 8 ∷ [];
  len = 8;
}

send_frames_lem_example :
    (((send_frames two_slots (frame ∷ [])).0, datagrams (send_frames two_slots (frame ∷ [])).1)
      ≡ send_frames_spec 2 two_slots 0 (frame ∷ []))
    × Ready 2 (send_frames two_slots (frame ∷ [])).1 []
send_frames_lem_example = send_frames_lem two_slots [] (frame ∷ []) ready (omega arith)

abbrev nothing_bound : Routing
nothing_bound = record { devices = []; motor_routes = [] }

abbrev knee : CanAddr
knee = record { can_port = 1; can_id = 5 }

route_of-bind_motor_example :
    route_of (bind_motor nothing_bound knee).1 1 5
    ≡ (if true && true then some 0 else route_of nothing_bound 1 5)
route_of-bind_motor_example = route_of-bind_motor nothing_bound knee 1 5

abbrev one_motor : Receiver ℤ
one_motor = record {
  routing = (bind_motor nothing_bound knee).1;
  specs = none ∷ [];
  motors = new_device (pos 0) ∷ [];
}

handle_packet_lem_example :
    get_elem? (handle_packet ℤ blank 9 (packet 0 (status_frame ∷ [])) one_motor).motors 0
    ≡ some (delivered_all ℤ blank 9 one_motor 0 (status_frame ∷ []) (new_device (pos 0)))
handle_packet_lem_example =
    handle_packet_lem ℤ blank 9 0 one_motor 0 (status_frame ∷ []) kind_ok (omega arith) frame_ok
      (omega arith)
  where
    kind_ok : supported_type 0 ≡ true
    kind_ok = unfold supported_type in refl

    frame_ok : all_valid (status_frame ∷ []) ≡ true
    frame_ok = unfold all_valid valid in refl

abbrev empty_batch : IsBatch new_batch
empty_batch = emptied-IsBatch new_batch refl refl

flush_lem_example :
    Does 2 [] (emptied (flush_spec 2 (pending new_batch) two_slots 0)) (flush new_batch two_slots)
flush_lem_example = flush_lem new_batch two_slots [] empty_batch ready

push_lem_example :
    Does 2 []
      (push_spec ℤ 2 (knee ∷ []) new_batch two_slots 0 0 whole_command)
      (push ℤ (knee ∷ []) new_batch two_slots 0 whole_command)
push_lem_example =
    push_lem ℤ (knee ∷ []) new_batch two_slots [] 0 whole_command (omega arith) (omega arith)
      empty_batch ready

-- Nothing in the way: the rate limit lets the packet pass, and the socket takes it at once.
abbrev clear : Surroundings
clear = record {
  wait_error = FleetErr.ok;
  is_open = true;
  stops = λ attempt. false;
  outcome = λ attempt. SendOutcome.sent;
}

abbrev clear_Accepts : Accepts clear
clear_Accepts = (refl, refl, unfold attempts in refl)

send_frames-tx_rounds_example :
    ((send_frames two_slots (frame ∷ [])).0 ≡ FleetErr.ok)
    × (last : List ℕ) × ((tx_rounds (clear ∷ []) (send_frames two_slots (frame ∷ [])).1).0
        ≡ datagrams two_slots ++ (last ∷ []))
    × (decode_each last (some (λ (fs : List CanFrame) (f : CanFrame). f ∷ fs)) []
        ≡ (FleetErr.ok, foldl (λ (fs : List CanFrame) (f : CanFrame). f ∷ fs) [] (frame ∷ [])))
    × (datagrams (tx_rounds (clear ∷ []) (send_frames two_slots (frame ∷ [])).1).1 ≡ [])
send_frames-tx_rounds_example =
    send_frames-tx_rounds (λ (fs : List CanFrame) (f : CanFrame). f ∷ fs) [] (clear ∷ []) two_slots
      [] (frame ∷ []) ready running room (omega arith) valid_frame (omega arith) (omega arith)
      (clear_Accepts, omega arith) idle
  where
    nothing : datagrams two_slots ≡ []
    nothing = (realtime_udp_channel-Ready 7 2 (omega arith)).3

    running : two_slots.stopped ≡ false
    running = (realtime_udp_channel-Ready 7 2 (omega arith)).4

    idle : length (clear ∷ []) ≡ length (datagrams two_slots) + 1
    idle = rw nothing refl

    room : length (datagrams two_slots) + 0 ≢ 2
    room e = absurd (omega (arith, ap length nothing))

    valid_frame : all_valid (frame ∷ []) ≡ true
    valid_frame = unfold all_valid valid in refl
