-- ===== src/Channel/Realtime/Queueing.antt =====
-- What a packet that is filled and committed does to the datagrams.
use servo_fleet.Prelude.{
  ℕ, ◌≤◌, List, [], ◌∷◌, ◌++◌, map, length, ◌≡◌, refl, arith, ap, ap₂, ◌∙◌, copy_into, false, some,
  le→ltb, ==-self, sym, subst,
}
use servo_fleet.Error.{FleetErr, expected, unexpected}
use servo_fleet.Channel.PacketPool.{PacketPool, acquire_slot, slot_offset, enqueue}
use servo_fleet.Channel.PacketPool.Ownership.{
  Owns, free, pending, pending_room, enqueue-eq, enqueue-Owns,
}
use servo_fleet.Channel.PacketPool.Slots.{held_apart}
use servo_fleet.Channel.RingQueue.{try_push}
use servo_fleet.Channel.RingQueue.Fifo.{push_room}
use servo_fleet.Channel.Realtime.{
  RealtimeUdpChannel, send, send_packet, prepare_send, commit_send, is_foreign, release, fill,
}
use servo_fleet.Channel.Realtime.Packets.{
  datagram-packed_self, datagram, datagrams, Fits, packed, packed-Fits, map-datagram-packed,
}

-- Packet `slot` with `bytes` in its storage.
abbrev pub filled : PacketPool → ℕ → List ℕ → PacketPool
filled p slot bytes = record p {
  send_storage = copy_into p.send_storage (slot_offset p slot) bytes;
}

pub send_packet_eq :
    (c : RealtimeUdpChannel) (bytes : List ℕ) (slot : ℕ)
    → c.stopped ≡ false
    → length bytes ≤ 512
    → send_packet c (record { owner = some c.self; slot = slot }) bytes ≡ (
      (enqueue (filled c.send_queue slot bytes) slot (length bytes)).0,
      record c { send_queue = (enqueue (filled c.send_queue slot bytes) slot (length bytes)).1 },
    )
unfolding send_packet commit_send is_foreign release fill
send_packet_eq c bytes slot s l = ground (arith, ==-self c.self, le→ltb 512 (length bytes) l)

pub send_free :
    (c : RealtimeUdpChannel) (bytes : List ℕ) (slot : ℕ)
    → c.stopped ≡ false
    → length bytes ≤ 512
    → (acquire_slot c.send_queue).0 ≡ expected slot
    → send c bytes
      ≡ send_packet
          (record c { send_queue = (acquire_slot c.send_queue).1 })
          (record { owner = some c.self; slot = slot })
          bytes
unfolding send prepare_send
send_free c bytes slot s l e = ground (arith, le→ltb 512 (length bytes) l)

pub send_busy :
    (c : RealtimeUdpChannel) (bytes : List ℕ)
    → c.stopped ≡ false
    → length bytes ≤ 512
    → (acquire_slot c.send_queue).0 ≡ unexpected FleetErr.busy
    → send c bytes ≡ (FleetErr.busy, record c { send_queue = (acquire_slot c.send_queue).1 })
unfolding send prepare_send
send_busy c bytes s l e = ground (arith, le→ltb 512 (length bytes) l)

-- A channel of `slots` packets, `held` of them in the hands of its callers.
pub record Ready (slots : ℕ) (c : RealtimeUdpChannel) (held : List ℕ) : Type 0 where
  pub owns : Owns slots c.send_queue held
  pub fits : Fits slots c.send_queue

pub filled-Owns :
    {n : ℕ} {p : PacketPool} (slot : ℕ) (bytes held : List ℕ)
    → Owns n p held
    → Owns n (filled p slot bytes) held
filled-Owns slot bytes held h = record {
  free_IsValid = h.free_IsValid;
  pending_IsValid = h.pending_IsValid;
  free_capacity = h.free_capacity;
  pending_capacity = h.pending_capacity;
  split = h.split;
}

pub map-append_one :
    {A B : Type 0} (f : A → B) (xs : List A) (x : A)
    → map f (xs ++ (x ∷ [])) ≡ map f xs ++ (f x ∷ [])
map-append_one f [] x = refl
map-append_one f (y ∷ xs) x = ap (◌∷◌ (f y)) (map-append_one f xs x)

-- What a channel that holds `slot` for the call sends: one more datagram.
module _ {n : ℕ} (c : RealtimeUdpChannel) (bytes : List ℕ) (slot : ℕ) (held : List ℕ)
    (h : Ready n c (slot ∷ held)) (l : length bytes ≤ 512) where
  unfoldable pub p : PacketPool
  p = c.send_queue

  unfoldable pub queued : RealtimeUdpChannel
  queued = record c { send_queue = (enqueue (filled p slot bytes) slot (length bytes)).1 }

  unfoldable pub pushed : PacketPool
  pushed = record (packed p slot bytes) { pending_slots = (try_push p.pending_slots slot).1 }

  pub queued-eq : queued.send_queue ≡ pushed
  unfolding queued pushed p
  queued-eq =
      ap (λ r. r.1)
        (enqueue-eq slot held (filled-Owns slot bytes (slot ∷ held) h.owns) (length bytes))

  pub queued-Ready : Ready n queued held
  unfolding queued p pushed
  queued-Ready =
      let fits = packed-Fits slot bytes l h.fits in
      record {
        owns =
            (enqueue-Owns slot held (filled-Owns slot bytes (slot ∷ held) h.owns) (length bytes)).1;
        fits = subst (Fits n) (sym queued-eq) (record {
          cap = fits.cap;
          sizes = fits.sizes;
          storage = fits.storage;
          bounded = fits.bounded;
          small = fits.small;
        });
      }

  pub datagrams-queued : datagrams queued ≡ datagrams c ++ (bytes ∷ [])
  unfolding datagrams datagram slot_offset queued p pushed
  datagrams-queued =
      let apart = held_apart slot (free p) (pending p) held h.owns.split in
      ap (λ q. map (datagram q) (pending q)) queued-eq
      ∙ ap (map (datagram pushed))
          (push_room slot h.owns.pending_IsValid (pending_room slot held h.owns)).1
      ∙ map-append_one (datagram pushed) (pending p) slot
      ∙ ap₂ (λ xs x. xs ++ (x ∷ []))
          (map-datagram-packed slot bytes h.fits apart.0 l (pending p) apart.1
            (λ x. omega (arith, h.owns.split.once x)))
          (datagram-packed_self slot bytes h.fits apart.0 l)
