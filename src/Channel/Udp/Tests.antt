-- ===== src/Channel/Udp/Tests.antt =====
-- A new channel of two slots.
use servo_fleet.Prelude.{[], ◌∷◌, ◌≡◌, refl, false, true, map}
use servo_fleet.Channel.PacketPool.{packet_pool}
use servo_fleet.Channel.PacketPool.Ownership.{Owns, pending}
use servo_fleet.Channel.PacketPool.Start.{packet_pool-Owns}
use servo_fleet.Channel.Realtime.Packets.{datagram}
use servo_fleet.Channel.Udp.{UdpChannel, send, send_pending}
use servo_fleet.Channel.Udp.Accepting.{Answers, send_error, udp_send_lem}
use servo_fleet.Channel.Udp.Draining.{given, send_pending_lem}

abbrev two_slots : UdpChannel
two_slots = record { stopped = false; send_queue = packet_pool [] 2 128 }

udp_send_lem_example :
    Answers 2 two_slots [] (send_error 2 two_slots 0 (1 ∷ 2 ∷ [])) (send two_slots (1 ∷ 2 ∷ []))
udp_send_lem_example = udp_send_lem two_slots [] (1 ∷ 2 ∷ []) (packet_pool-Owns [] 2 128)

send_pending_lem_example :
    ((send_pending true (λ i. false) (send two_slots (1 ∷ [])).1).0
      ≡ given true (
          map
            (datagram (send two_slots (1 ∷ [])).1.send_queue)
            (pending (send two_slots (1 ∷ [])).1.send_queue)))
    × Owns 2 (send_pending true (λ i. false) (send two_slots (1 ∷ [])).1).1.send_queue []
    × (pending (send_pending true (λ i. false) (send two_slots (1 ∷ [])).1).1.send_queue ≡ [])
send_pending_lem_example =
    send_pending_lem true (λ i. false) (send two_slots (1 ∷ [])).1 [] (λ i. refl)
      (udp_send_lem two_slots [] (1 ∷ []) (packet_pool-Owns [] 2 128)).1
