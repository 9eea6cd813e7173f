-- ===== src/Channel/PacketPool.antt =====
-- src/channel.cc, `packet_pool` and `make_send_storage`. `udp_send_queue` passes each call on to
-- its pool, between the notifications of a condition variable, so that its calls are those of the
-- pool here.
pub mod Slots
pub mod Ownership
pub mod Start
use servo_fleet.Prelude.{
  ℕ, zero, suc, ◌+◌, ◌*◌, ◌/◌, ◌==◌, ltb, ◌||◌, if◌then◌else◌, Bool, true, false, List, [], ◌∷◌,
  Option, none, some, length, get_or, set, replicate,
}
use servo_fleet.Words.{u32}
use servo_fleet.Error.{FleetErr, Result, expected, unexpected}
use servo_fleet.Channel.RingQueue.{FixedRingQueue, fixed_ring_queue, try_push, try_pop, size}

pub record PacketPool : Type 0 where
  pub send_storage : List ℕ
  pub packet_cap : ℕ
  pub packet_sizes : List ℕ
  pub free_slots : FixedRingQueue
  pub pending_slots : FixedRingQueue

-- `none` where the code throws.
unfoldable pub make_send_storage : ℕ → ℕ → Option (List ℕ)
make_send_storage send_queue_slots packet_cap =
    if packet_cap == 0 || ltb (0xffff_ffff / packet_cap) send_queue_slots
    then none
    else some (replicate (u32 (send_queue_slots * packet_cap)) 0)

-- The loop of the constructor, with `n` slots left from `slot` on.
unfoldable pub push_slots : FixedRingQueue → ℕ → ℕ → FixedRingQueue
push_slots q slot zero = q
push_slots q slot (suc n) = push_slots (try_push q slot).1 (slot + 1) n

unfoldable pub packet_pool : List ℕ → ℕ → ℕ → PacketPool
packet_pool storage slot_count packet_cap = record {
  send_storage = storage;
  packet_cap = packet_cap;
  packet_sizes = replicate slot_count 0;
  free_slots = push_slots (fixed_ring_queue slot_count) 0 slot_count;
  pending_slots = fixed_ring_queue slot_count;
}

unfoldable pub acquire_slot : PacketPool → Result ℕ × PacketPool
acquire_slot p =
    let (popped, q) = try_pop p.free_slots in
    elim popped [
      | none ↦ (unexpected FleetErr.busy, record p { free_slots = q })
      | some slot ↦ (expected slot, record p { free_slots = q })
    ]

-- The offset of the slot's bytes in the storage: `slot * packet_cap_` is a product of `uint32_t`.
unfoldable pub slot_offset : PacketPool → ℕ → ℕ
slot_offset p slot = u32 (slot * p.packet_cap)

unfoldable pub release_slot : PacketPool → ℕ → PacketPool
release_slot p slot = record p {
  packet_sizes = set p.packet_sizes slot 0;
  free_slots = (try_push p.free_slots slot).1;
}

unfoldable pub enqueue : PacketPool → ℕ → ℕ → FleetErr × PacketPool
enqueue p slot size =
    let sized : PacketPool = record p { packet_sizes = set p.packet_sizes slot size } in
    let (pushed, q) = try_push p.pending_slots slot in
    if pushed
    then (FleetErr.ok, record sized { pending_slots = q })
    else (FleetErr.busy, release_slot sized slot)

-- The slot and the size of its packet.
unfoldable pub try_pop_pending : PacketPool → Option (ℕ × ℕ) × PacketPool
try_pop_pending p =
    let (popped, q) = try_pop p.pending_slots in
    elim popped [
      | none ↦ (none, record p { pending_slots = q })
      | some slot ↦ (some (slot, get_or p.packet_sizes slot 0), record p { pending_slots = q })
    ]

unfoldable pub pending_count : PacketPool → ℕ
pending_count p = size p.pending_slots

-- The loop of `discard_pending`, for `n` rounds at most.
unfoldable pub discard_rounds : ℕ → PacketPool → PacketPool
discard_rounds zero p = p
discard_rounds (suc n) p =
    let (popped, q) = try_pop_pending p in
    elim popped [ none ↦ q | some (slot, size) ↦ discard_rounds n (release_slot q slot) ]

-- Each round takes one slot from the queue, and the round after the last finds it empty.
unfoldable pub discard_pending : PacketPool → PacketPool
discard_pending p = discard_rounds (pending_count p + 1) p
