-- ===== src/Driver.antt =====
-- src/driver_motor.cc and src/driver_motor.h: the calls that put frames on the channel, and the
-- routes from an address on the bus to a device. A pointer to a device is its slot in `devices_`.
pub mod Buffers
pub mod Sending
pub mod Routes
pub mod Receiving
pub mod Delivery
pub mod Batch
pub mod Flushing
pub mod Batching
pub mod Commanding
pub mod Crossing
mod Tests
use servo_fleet.Prelude.{
  ℕ, zero, suc, ◌+◌, ◌-◌, ◌==◌, ltb, leb, ◌||◌, ◌&&◌, if◌then◌else◌, List, [], ◌∷◌, ◌++◌, length,
  slice, set, get_or, replicate, Option, none, some,
}
use servo_fleet.Words.{u32}
use servo_fleet.Error.{FleetErr, Result, expected, unexpected}
use servo_fleet.CanFrame.{CanFrame, CanAddr}
use servo_fleet.MotorCodec.{encode_into, type_udp2can}
use servo_fleet.Channel.PacketPool.{slot_offset}
use servo_fleet.Channel.Realtime.{
  RealtimeUdpChannel, PacketBuffer, prepare_send, commit_send, fill, release,
}

-- `packet.buffer()`: the bytes of the packet's slot.
unfoldable pub buffer : RealtimeUdpChannel → PacketBuffer → List ℕ
buffer c packet =
    let q = c.send_queue in slice q.send_storage (slot_offset q packet.slot) q.packet_cap

-- What `send` does with the result of `encode_into` and the buffer after it. The destructor of
-- the packet runs at the end.
unfoldable pub commit_encoded :
    RealtimeUdpChannel → PacketBuffer → Result ℕ × List ℕ → FleetErr × RealtimeUdpChannel
commit_encoded c packet (unexpected e, bytes) = (e, (release (fill c packet bytes) packet).0)
commit_encoded c packet (expected size, bytes) =
    let (error, committed, left) = commit_send (fill c packet bytes) packet size in
    (error, (release committed left).0)

unfoldable pub send_encoded :
    RealtimeUdpChannel → PacketBuffer → List CanFrame → FleetErr × RealtimeUdpChannel
send_encoded c packet frames =
    commit_encoded c packet (encode_into (buffer c packet) type_udp2can frames)

-- `send(std::span<const can_frame>)`, on the driver's channel.
unfoldable pub send_frames : RealtimeUdpChannel → List CanFrame → FleetErr × RealtimeUdpChannel
send_frames c [] = (FleetErr.ok, c)
send_frames c (frame ∷ frames) =
    let (packet, prepared) = prepare_send c in
    elim packet [
      | unexpected e ↦ (e, prepared)
      | expected p ↦ send_encoded prepared p (frame ∷ frames)
    ]

-- `send(const can_frame &)`.
unfoldable pub send_frame : RealtimeUdpChannel → CanFrame → FleetErr × RealtimeUdpChannel
send_frame c frame = send_frames c (frame ∷ [])

-- `devices_` and `motor_routes_`.
pub record Routing : Type 0 where
  pub devices : List CanAddr
  pub motor_routes : List (List (Option ℕ))

-- `std::vector::resize` to at least `n` entries.
unfoldable pub resize_to {ℓ} : {A : Type ℓ} → List A → ℕ → A → List A
resize_to xs n a = if ltb (length xs) n then xs ++ replicate (n - length xs) a else xs

unfoldable pub bind_motor : Routing → CanAddr → ℕ × Routing
bind_motor d address =
    let device_slot = u32 (length d.devices) in
    let routes = resize_to d.motor_routes (address.can_port + 1) [] in
    let port_routes = resize_to (get_or routes address.can_port []) (address.can_id + 1) none in
    (
      device_slot,
      record d {
        devices = d.devices ++ (address ∷ []);
        motor_routes =
            set routes address.can_port (set port_routes address.can_id (some (length d.devices)));
      },
    )

-- The device that `handle_frame` routes a frame to, by its guard.
unfoldable pub route_of : Routing → ℕ → ℕ → Option ℕ
route_of d port id =
    if leb (length d.motor_routes) port || leb (length (get_or d.motor_routes port [])) id
    then none
    else get_or (get_or d.motor_routes port []) id none
