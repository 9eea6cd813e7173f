-- ===== src/Channel/Realtime/Packets.antt =====
-- The bytes of the packets in the pool's storage.
use servo_fleet.Prelude.{
  ℕ, zero, suc, ◌+◌, ◌*◌, ◌<◌, ◌≤◌, ltb, if◌then◌else◌, List, [], ◌∷◌, map, ◌^◌, length, get_or,
  set, slice, ◌≡◌, ◌≢◌, refl, arith, ap₂, ◌∙◌, ◌⊎◌, copy_into, get_or-set_ne, get_or-set_self,
  slice-copy_into_out, slice-copy_into_self, length-set, length-copy_into,
}
use servo_fleet.Channel.PacketPool.{PacketPool, slot_offset}
use servo_fleet.Channel.PacketPool.Ownership.{pending}
use servo_fleet.Channel.PacketPool.Slots.{count_of}
use servo_fleet.Channel.Realtime.{RealtimeUdpChannel, motor_udp_packet_cap}

-- The bytes of a pending packet.
unfoldable pub datagram : PacketPool → ℕ → List ℕ
datagram p slot = slice p.send_storage (slot_offset p slot) (get_or p.packet_sizes slot 0)

unfoldable pub datagrams : RealtimeUdpChannel → List (List ℕ)
datagrams c = map (datagram c.send_queue) (pending c.send_queue)

-- The storage of `slots` packets of 512 bytes, which `make_send_storage` accepts.
pub record Fits (slots : ℕ) (p : PacketPool) : Type 0 where
  pub cap : p.packet_cap ≡ motor_udp_packet_cap
  pub sizes : length p.packet_sizes ≡ slots
  pub storage : length p.send_storage ≡ slots * motor_udp_packet_cap
  pub bounded : (slot : ℕ) → get_or p.packet_sizes slot 0 ≤ motor_udp_packet_cap
  pub small : slots * motor_udp_packet_cap < 2 ^ 32

pub slot_offset-eq :
    {n : ℕ} {p : PacketPool} (slot : ℕ) → Fits n p → slot < n → slot_offset p slot ≡ slot * 512
unfolding slot_offset
slot_offset-eq slot h l = rw h.cap (omega (arith, h.small))

-- Packet `slot` with `bytes` in it.
abbrev pub packed : PacketPool → ℕ → List ℕ → PacketPool
packed p slot bytes = record p {
  send_storage = copy_into p.send_storage (slot_offset p slot) bytes;
  packet_sizes = set p.packet_sizes slot (length bytes);
}

pub set_bounded :
    (xs : List ℕ) (i v : ℕ)
    → v ≤ 512
    → ((j : ℕ) → get_or xs j 0 ≤ 512)
    → (j : ℕ) → get_or (set xs i v) j 0 ≤ 512
set_bounded [] i v b h j = h j
set_bounded (x ∷ xs) zero v b h zero = b
set_bounded (x ∷ xs) zero v b h (suc j) = h (suc j)
set_bounded (x ∷ xs) (suc i) v b h zero = h zero
set_bounded (x ∷ xs) (suc i) v b h (suc j) = set_bounded xs i v b (λ k. h (suc k)) j

pub packed-Fits :
    {n : ℕ} {p : PacketPool} (slot : ℕ) (bytes : List ℕ)
    → length bytes ≤ 512
    → Fits n p
    → Fits n (packed p slot bytes)
packed-Fits {n} {p} slot bytes b h = record {
  cap = h.cap;
  sizes = length-set p.packet_sizes slot (length bytes) ∙ h.sizes;
  storage = length-copy_into p.send_storage (slot_offset p slot) bytes ∙ h.storage;
  bounded = set_bounded p.packet_sizes slot (length bytes) b h.bounded;
  small = h.small;
}

module _ {n : ℕ} {p : PacketPool} (slot : ℕ) (bytes : List ℕ) (h : Fits n p) (l : slot < n)
    (b : length bytes ≤ 512) where
  pub datagram-packed_self : datagram (packed p slot bytes) slot ≡ bytes
  unfolding datagram slot_offset
  datagram-packed_self =
      rw (get_or-set_self p.packet_sizes slot (length bytes) 0 (omega (arith, h.sizes))) (
        slice-copy_into_self p.send_storage (slot_offset p slot) bytes
          (omega (arith, slot_offset-eq slot h l, h.storage)))

  pub apart :
      {other : ℕ}
      → slot ≢ other
      → {x y m : ℕ} → x ≡ slot * 512
      → y ≡ other * 512
      → m ≤ 512
      → (x + length bytes ≤ y) ⊎ (y + m ≤ x)
  apart {other} ne ex ey bm = ground arith

  datagram-packed_out :
      (other : ℕ)
      → slot ≢ other
      → other < n
      → datagram (packed p slot bytes) other ≡ datagram p other
  unfolding datagram slot_offset
  datagram-packed_out other ne lo =
      rw (get_or-set_ne p.packet_sizes slot other (length bytes) 0 ne) (
        slice-copy_into_out p.send_storage (slot_offset p slot) bytes (slot_offset p other) _
          (apart ne (slot_offset-eq slot h l) (slot_offset-eq other h lo) (h.bounded other)))

  pub map-datagram-packed :
      (xs : List ℕ)
      → count_of slot xs ≡ 0
      → ((x : ℕ) → count_of x xs ≤ (if ltb x n then 1 else 0))
      → map (datagram (packed p slot bytes)) xs ≡ map (datagram p) xs
  unfolding count_of
  map-datagram-packed [] z once = refl
  map-datagram-packed (x ∷ xs) z once =
      ap₂ ◌∷◌ (datagram-packed_out x (λ e. ground (arith)) (ground (arith, once x)))
        (map-datagram-packed xs (ground arith) (λ y. ground (arith, once y)))
