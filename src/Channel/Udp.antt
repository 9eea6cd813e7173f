-- ===== src/Channel/Udp.antt =====
-- src/channel.cc, the calls of `udp_channel` and the sending half of its thread.
pub mod Accepting
pub mod Draining
mod Tests
use servo_fleet.Prelude.{
  ℕ, zero, suc, ◌+◌, ltb, if◌then◌else◌, Bool, true, false, List, [], ◌∷◌, length, copy_into, slice,
  Option, none, some,
}
use servo_fleet.Error.{FleetErr, Result, expected, unexpected}
use servo_fleet.Channel.PacketPool.{
  PacketPool, make_send_storage, packet_pool, acquire_slot, release_slot, enqueue, try_pop_pending,
  pending_count, slot_offset,
}

abbrev pub udp_packet_cap : ℕ
udp_packet_cap = 128

pub record UdpChannel : Type 0 where
  pub stopped : Bool
  pub send_queue : PacketPool

-- The constructor, which throws when `make_send_storage` does.
unfoldable pub udp_channel : ℕ → Option UdpChannel
udp_channel send_queue_slots = elim (make_send_storage send_queue_slots udp_packet_cap) [
  | none ↦ none
  | some storage ↦
      some (record {
        stopped = false;
        send_queue = packet_pool storage send_queue_slots udp_packet_cap;
      })
]

-- `udp_channel::send` after the call of `acquire_slot`.
unfoldable pub send_in : UdpChannel → List ℕ → Result ℕ × PacketPool → FleetErr × UdpChannel
send_in c bytes (unexpected e, p) = (e, record c { send_queue = p })
send_in c bytes (expected slot, p) =
    let filled = record p { send_storage = copy_into p.send_storage (slot_offset p slot) bytes } in
    let (error, q) = enqueue filled slot (length bytes) in (error, record c { send_queue = q })

unfoldable pub send : UdpChannel → List ℕ → FleetErr × UdpChannel
unfolding send_in
send c bytes =
    if ltb udp_packet_cap (length bytes)
    then (FleetErr.invalid_argument, c)
    else if c.stopped
    then (FleetErr.cancelled, c)
    else send_in c bytes (acquire_slot c.send_queue)

-- `send_slot`: what the socket is given, ahead of what it is given later. An error of the socket only
-- goes to the log.
abbrev pub send_slot : Bool → List ℕ → List (List ℕ) × PacketPool → List (List ℕ) × PacketPool
send_slot true bytes (later, p) = (bytes ∷ later, p)
send_slot false bytes (later, p) = (later, p)

-- The body of the loop of `send_pending`, with the rounds that follow.
unfoldable pub send_popped :
    Bool
    → (PacketPool → List (List ℕ) × PacketPool)
    → Option (ℕ × ℕ) × PacketPool
    → List (List ℕ) × PacketPool
send_popped is_open later (none, q) = ([], q)
send_popped is_open later (some (slot, size), q) =
    send_slot is_open (slice q.send_storage (slot_offset q slot) size) (later (release_slot q slot))

-- The loop, for `n` rounds at most; `stops` says whether a stop is requested before each round, and
-- `is_open` whether the socket is open.
unfoldable pub send_rounds : Bool → (ℕ → Bool) → ℕ → PacketPool → List (List ℕ) × PacketPool
unfolding send_popped
send_rounds is_open stops zero p = ([], p)
send_rounds is_open stops (suc n) p =
    if stops n
    then ([], p)
    else send_popped is_open (λ q. send_rounds is_open stops n q) (try_pop_pending p)

-- Each round takes one slot from the queue, and the round after the last finds it empty.
unfoldable pub send_pending : Bool → (ℕ → Bool) → UdpChannel → List (List ℕ) × UdpChannel
unfolding send_rounds
send_pending is_open stops c =
    let (sent, p) = send_rounds is_open stops (pending_count c.send_queue + 1) c.send_queue in
    (sent, record c { send_queue = p })
