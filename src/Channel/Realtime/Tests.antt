-- ===== src/Channel/Realtime/Tests.antt =====
-- A channel of two slots.
use servo_fleet.Prelude.{[], ◌∷◌, false, true, some, none, ◌≡◌, refl, arith, if◌then◌else◌, ◌≤◌}
use servo_fleet.Error.{FleetErr}
use servo_fleet.Channel.RingQueue.{
  FixedRingQueue, fixed_ring_queue, try_push, try_pop, contents, capacity, IsValid,
}
use servo_fleet.Channel.RingQueue.Fifo.{
  ring-refines_queue, fixed_ring_queue-IsValid, push_back, pop_front,
}
use servo_fleet.Channel.PacketPool.{packet_pool, discard_pending}
use servo_fleet.Channel.PacketPool.Ownership.{Owns, pending, discard_pending-Owns}
use servo_fleet.Channel.PacketPool.Start.{packet_pool-Owns}
use servo_fleet.Channel.Realtime.{
  RealtimeUdpChannel, Surroundings, SendOutcome, realtime_udp_channel, send, tx_round, is_sent,
  attempts,
}
use servo_fleet.Channel.Realtime.Packets.{datagrams}
use servo_fleet.Channel.Realtime.Queueing.{Ready}
use servo_fleet.Channel.Realtime.Datagrams.{send_spec, send_lem}
use servo_fleet.Channel.Realtime.Transmit.{tx_round_lem}
use servo_fleet.Channel.Realtime.Start.{realtime_udp_channel-Ready}

abbrev two_slots :
    (c : RealtimeUdpChannel) × (realtime_udp_channel 7 2 ≡ some c)
    × Ready 2 c []
    × (datagrams c ≡ [])
    × (c.stopped ≡ false)
two_slots = realtime_udp_channel-Ready 7 2 (omega arith)

abbrev ready_channel : RealtimeUdpChannel
ready_channel = two_slots.0

abbrev busy_socket : Surroundings
busy_socket = record {
  wait_error = FleetErr.ok;
  is_open = true;
  stops = λ _. false;
  outcome = λ _. SendOutcome.would_block;
}

gives_up : attempts busy_socket 0 3 ≡ (false, 3)
unfolding attempts
gives_up = refl

realtime_udp_channel-Ready_example :
    (c : RealtimeUdpChannel) × (realtime_udp_channel 7 2 ≡ some c)
    × Ready 2 c []
    × (datagrams c ≡ [])
    × (c.stopped ≡ false)
realtime_udp_channel-Ready_example = realtime_udp_channel-Ready 7 2 (omega arith)

send_lem_example :
    (((send ready_channel (1 ∷ 2 ∷ [])).0, datagrams (send ready_channel (1 ∷ 2 ∷ [])).1)
      ≡ send_spec 2 ready_channel 0 (1 ∷ 2 ∷ []))
    × Ready 2 (send ready_channel (1 ∷ 2 ∷ [])).1 []
send_lem_example = send_lem ready_channel [] (1 ∷ 2 ∷ []) two_slots.2

tx_round_lem_example :
    ((tx_round busy_socket ready_channel).0 ≡ (
      if is_sent busy_socket ready_channel then (pop_front (datagrams ready_channel)).0 else none))
    × (datagrams (tx_round busy_socket ready_channel).1 ≡ (pop_front (datagrams ready_channel)).1)
    × Ready 2 (tx_round busy_socket ready_channel).1 []
    × ((attempts busy_socket 0 3).1 ≤ 3)
tx_round_lem_example = tx_round_lem busy_socket ready_channel [] two_slots.2

discard_pending-Owns_example :
    Owns 2 (discard_pending (packet_pool [] 2 0)) []
    × (pending (discard_pending (packet_pool [] 2 0)) ≡ [])
discard_pending-Owns_example = discard_pending-Owns [] (packet_pool-Owns [] 2 0)

abbrev three : FixedRingQueue
three = fixed_ring_queue 3

ring-refines_queue_example :
    (((try_push three 5).0, contents (try_push three 5).1) ≡ push_back 3 (contents three) 5)
    × (((try_pop three).0, contents (try_pop three).1) ≡ pop_front (contents three))
    × IsValid (try_push three 5).1
    × IsValid (try_pop three).1
    × (capacity (try_push three 5).1 ≡ 3)
    × (capacity (try_pop three).1 ≡ 3)
unfolding fixed_ring_queue
ring-refines_queue_example = ring-refines_queue 5 (fixed_ring_queue-IsValid 3)
