-- ===== src/Channel/Realtime.antt =====
-- src/channel.cc, the calls of `realtime_udp_channel`. A channel is known by a number, as
-- `packet_buffer` keeps a pointer to its owner; `none` is a null pointer.
pub mod Packets
pub mod Queueing
pub mod Datagrams
pub mod Transmit
pub mod Start
mod Tests
use servo_fleet.Prelude.{
  ℕ, zero, suc, ◌+◌, ◌&&◌, ◌==◌, ltb, ◌||◌, not, if◌then◌else◌, Bool, true, false, List, length,
  copy_into, slice, take, Option, none, some,
}
use servo_fleet.Error.{FleetErr, Result, expected, unexpected, is_error}
use servo_fleet.Channel.PacketPool.{
  PacketPool, acquire_slot, release_slot, enqueue, try_pop_pending, make_send_storage, packet_pool,
  discard_pending, slot_offset,
}

abbrev pub motor_udp_packet_cap : ℕ
motor_udp_packet_cap = 512

pub record RealtimeUdpChannel : Type 0 where
  pub self : ℕ
  pub stopped : Bool
  pub send_queue : PacketPool

pub record PacketBuffer : Type 0 where
  pub owner : Option ℕ
  pub slot : ℕ

-- The constructor, which throws when `make_send_storage` does.
unfoldable pub realtime_udp_channel : ℕ → ℕ → Option RealtimeUdpChannel
realtime_udp_channel self send_queue_slots =
    elim (make_send_storage send_queue_slots motor_udp_packet_cap) [
      | none ↦ none
      | some storage ↦ some (record {
        self = self;
        stopped = false;
        send_queue = packet_pool storage send_queue_slots motor_udp_packet_cap;
      })
    ]

-- The destructor of `packet_buffer`, for one that this channel gave out: `release` and
-- `release_packet`.
unfoldable pub release : RealtimeUdpChannel → PacketBuffer → RealtimeUdpChannel × PacketBuffer
release c packet = elim packet.owner [
  | none ↦ (c, packet)
  | some owner ↦ (
    record c { send_queue = release_slot c.send_queue packet.slot },
    record packet { owner = none },
  )
]

unfoldable pub prepare_send : RealtimeUdpChannel → Result PacketBuffer × RealtimeUdpChannel
prepare_send c =
    let (slot, q) = acquire_slot c.send_queue in
    if c.stopped then (unexpected FleetErr.cancelled, c) else elim slot [
      | unexpected e ↦ (unexpected e, record c { send_queue = q })
      | expected s ↦
          (expected (record { owner = some c.self; slot = s }), record c { send_queue = q })
    ]

-- `packet.owner_ != this`.
unfoldable pub is_foreign : RealtimeUdpChannel → PacketBuffer → Bool
is_foreign c packet = elim packet.owner [ none ↦ true | some owner ↦ not (owner == c.self) ]

unfoldable pub commit_send :
    RealtimeUdpChannel → PacketBuffer → ℕ → FleetErr × RealtimeUdpChannel × PacketBuffer
commit_send c packet size =
    let (error, q) = enqueue c.send_queue packet.slot size in
    if is_foreign c packet || ltb motor_udp_packet_cap size
    then (FleetErr.invalid_argument, c, packet)
    else if c.stopped
    then (FleetErr.cancelled, c, packet)
    else (error, record c { send_queue = q }, record packet { owner = none })

-- A write of the caller to the front of `packet.buffer()`.
unfoldable pub fill : RealtimeUdpChannel → PacketBuffer → List ℕ → RealtimeUdpChannel
fill c packet bytes =
    let q = c.send_queue in
    record c {
      send_queue = record q {
        send_storage = copy_into q.send_storage (slot_offset q packet.slot) bytes;
      };
    }

-- What `send` does once it has a packet: its destructor runs at the end.
unfoldable pub send_packet :
    RealtimeUdpChannel → PacketBuffer → List ℕ → FleetErr × RealtimeUdpChannel
send_packet c packet bytes =
    let (error, committed, left) = commit_send (fill c packet bytes) packet (length bytes) in
    (error, (release committed left).0)

unfoldable pub send : RealtimeUdpChannel → List ℕ → FleetErr × RealtimeUdpChannel
send c bytes =
    let (packet, prepared) = prepare_send c in
    if ltb motor_udp_packet_cap (length bytes)
    then (FleetErr.invalid_argument, c)
    else elim packet [ unexpected e ↦ (e, prepared) | expected p ↦ send_packet prepared p bytes ]

unfoldable pub discard_pending_sends : RealtimeUdpChannel → RealtimeUdpChannel
discard_pending_sends c = record c { send_queue = discard_pending c.send_queue }

-- What `socket.send_to` answers: no error, `operation_aborted`, `would_block` or `try_again`, and
-- any other error.
pub data SendOutcome : Type 0 where
  sent aborted would_block failed : SendOutcome

-- What a round of `tx_loop` finds around it: the error of the rate limit, whether the socket is
-- open, whether a stop is seen before each attempt, and the socket's answers.
pub record Surroundings : Type 0 where
  pub wait_error : FleetErr
  pub is_open : Bool
  pub stops : ℕ → Bool
  pub outcome : ℕ → SendOutcome

abbrev pub send_retry_count : ℕ
send_retry_count = 3

-- The loop of attempts, `n` at most from `attempt` on: whether the packet was sent, and the number
-- of calls of `send_to`.
unfoldable pub attempts : Surroundings → ℕ → ℕ → Bool × ℕ
attempts around attempt zero = (false, attempt)
attempts around attempt (suc n) =
    let retried = attempts around (attempt + 1) n in
    if around.stops attempt then (false, attempt) else elim (around.outcome attempt) [
      | sent ↦ (true, attempt + 1)
      | aborted ↦ (false, attempt + 1)
      | failed ↦ (false, attempt + 1)
      | would_block ↦ retried
    ]

-- Whether the socket takes the packet of a round: the rate limit may fail, the channel may be
-- stopped and the socket closed.
unfoldable pub is_sent : Surroundings → RealtimeUdpChannel → Bool
is_sent around c =
    if is_error around.wait_error
    then false
    else if c.stopped
    then false
    else around.is_open && (attempts around 0 send_retry_count).0

-- The rest of a round, after the call of `try_pop_pending`. Each path ends with the call of
-- `release_slot`.
unfoldable pub handle_pending :
    Surroundings
    → RealtimeUdpChannel
    → Option (ℕ × ℕ) × PacketPool
    → Option (List ℕ) × RealtimeUdpChannel
handle_pending around c (none, q) = (none, record c { send_queue = q })
handle_pending around c (some (slot, size), q) = (
  if is_sent around c then some (slice q.send_storage (slot_offset q slot) size) else none,
  record c { send_queue = release_slot q slot },
)

-- One round of `tx_loop`: the bytes that the socket takes, if it does, and the channel after it.
unfoldable pub tx_round : Surroundings → RealtimeUdpChannel → Option (List ℕ) × RealtimeUdpChannel
tx_round around c = handle_pending around c (try_pop_pending c.send_queue)
