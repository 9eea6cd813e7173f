-- ===== src/Channel/Realtime/Start.antt =====
-- The channel as its constructor leaves it.
use servo_fleet.Prelude.{
  ℕ, zero, suc, ◌*◌, ◌≤◌, [], replicate, get_or, length-replicate, false, some, ◌≡◌, refl, arith,
  ◌<◌, ◌⊎◌, inl, inr, none,
}
use servo_fleet.Channel.RingQueue.{fixed_ring_queue, values_from}
use servo_fleet.Channel.PacketPool.{make_send_storage, packet_pool}
use servo_fleet.Channel.PacketPool.Start.{packet_pool-Owns}
use servo_fleet.Channel.Realtime.{RealtimeUdpChannel, realtime_udp_channel}
use servo_fleet.Channel.Realtime.Packets.{datagrams}
use servo_fleet.Channel.Realtime.Queueing.{Ready}

get_or-replicate : (n i : ℕ) → get_or {A = ℕ} (replicate n 0) i 0 ≡ 0
get_or-replicate zero i = refl
get_or-replicate (suc n) zero = refl
get_or-replicate (suc n) (suc i) = get_or-replicate n i

make_send_storage-eq :
    (slots : ℕ) → slots ≤ 8388607 → make_send_storage slots 512 ≡ some (replicate (slots * 512) 0)
unfolding make_send_storage
make_send_storage-eq slots h = ground arith

abbrev opened : ℕ → ℕ → RealtimeUdpChannel
opened self slots = record {
  self = self;
  stopped = false;
  send_queue = packet_pool (replicate (slots * 512) 0) slots 512;
}

opened-eq :
    (self slots : ℕ) → slots ≤ 8388607 → realtime_udp_channel self slots ≡ some (opened self slots)
unfolding realtime_udp_channel
opened-eq self slots h = rw (make_send_storage-eq slots h, realtime_udp_channel) refl

-- A constructor that is asked for no more than 8388607 slots, which are those whose bytes a
-- `uint32_t` counts, gives a ready channel with nothing pending and no packet held.
pub realtime_udp_channel-Ready :
    (self slots : ℕ)
    → slots ≤ 8388607
    → (c : RealtimeUdpChannel) × (realtime_udp_channel self slots ≡ some c)
      × Ready slots c []
      × (datagrams c ≡ [])
      × (c.stopped ≡ false)
unfolding realtime_udp_channel packet_pool datagrams fixed_ring_queue values_from
realtime_udp_channel-Ready self slots h = (
  opened self slots,
  opened-eq self slots h,
  record {
    owns = packet_pool-Owns (replicate (slots * 512) 0) slots 512;
    fits = record {
      cap = refl;
      sizes = length-replicate {A = ℕ} slots 0;
      storage = length-replicate {A = ℕ} (slots * 512) 0;
      bounded = λ i. omega (arith, get_or-replicate slots i);
      small = omega arith;
    };
  },
  refl,
  refl,
)

too_large : (self slots : ℕ) → 8388607 < slots → realtime_udp_channel self slots ≡ none
unfolding realtime_udp_channel make_send_storage
too_large self slots h = ground arith

-- The slots are no more than those, or the constructor throws.
pub slots_of_opened :
    (self slots : ℕ) → (slots ≤ 8388607) ⊎ (realtime_udp_channel self slots ≡ none)
slots_of_opened self slots = elim (ltb-cases slots) [
  | inl few ↦ inl few
  | inr large ↦ inr (too_large self slots large)
]
  where
    ltb-cases : (slots : ℕ) → (slots ≤ 8388607) ⊎ (8388607 < slots)
    ltb-cases slots = ground arith
