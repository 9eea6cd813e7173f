-- ===== src/Driver/Buffers.antt =====
-- A packet in the hands of the driver: encoded into, committed or given back.
use servo_fleet.Prelude.{
  ℕ, ◌<◌, ◌≤◌, ltb, List, [], ◌∷◌, ◌++◌, length, drop, copy_into, length-slice, copy_into-kept, ◌≡◌,
  refl, arith, ap, ◌∙◌, ◌⊎◌, true, false, some,
}
use servo_fleet.Error.{FleetErr, expected, unexpected}
use servo_fleet.CanFrame.{CanFrame}
use servo_fleet.MotorCodec.{encode_into, all_valid}
use servo_fleet.MotorCodec.Wire.{packet, AreFrames}
use servo_fleet.MotorCodec.Encode.{encode_into_lem, length-packet}
use servo_fleet.Channel.PacketPool.{release_slot, slot_offset}
use servo_fleet.Channel.PacketPool.Ownership.{free, pending, release_slot-Owns}
use servo_fleet.Channel.PacketPool.Slots.{held_apart}
use servo_fleet.Channel.Realtime.{RealtimeUdpChannel, PacketBuffer, fill, release, send_packet}
use servo_fleet.Channel.Realtime.Packets.{
  datagram, datagrams, packed-Fits, map-datagram-packed, slot_offset-eq,
}
use servo_fleet.Channel.Realtime.Queueing.{Ready}
use servo_fleet.Driver.{buffer, commit_encoded}

-- The packet of `slot`.
abbrev pub own : RealtimeUdpChannel → ℕ → PacketBuffer
own c slot = record { owner = some c.self; slot = slot }

module _ {n : ℕ} (c : RealtimeUdpChannel) (slot : ℕ) (held : List ℕ)
    (h : Ready n c (slot ∷ held)) where
  pub below : slot < n
  below = (held_apart slot (free c.send_queue) (pending c.send_queue) held h.owns.split).0

  pub length-buffer : length (buffer c (own c slot)) ≡ 512
  unfolding buffer
  length-buffer =
      length-slice c.send_queue.send_storage (slot_offset c.send_queue slot) c.send_queue.packet_cap
        (omega (arith, below, h.fits.cap, slot_offset-eq slot h.fits below, h.fits.storage))
      ∙ h.fits.cap

  -- Bytes in front of what the buffer held are those bytes alone.
  pub fill-kept :
      (bytes : List ℕ)
      → length bytes ≤ 512
      → fill c (own c slot) (bytes ++ drop (length bytes) (buffer c (own c slot)))
        ≡ fill c (own c slot) bytes
  unfolding fill buffer
  fill-kept bytes l =
      ap (λ s. record c { send_queue = record c.send_queue { send_storage = s } })
        (copy_into-kept c.send_queue.packet_cap c.send_queue.send_storage
          (slot_offset c.send_queue slot) bytes (omega (arith, h.fits.cap))
          (omega (arith, below, slot_offset-eq slot h.fits below, h.fits.storage)))

  -- The destructor of a packet that is still owned gives its slot back.
  unfoldable pub released : RealtimeUdpChannel
  released = (release c (own c slot)).0

  pub released-Ready : Ready n released held
  unfolding released release release_slot copy_into
  released-Ready =
      let fits = packed-Fits slot [] (omega arith) h.fits in
      record {
        owns = release_slot-Owns slot held h.owns;
        fits = record {
          cap = fits.cap;
          sizes = fits.sizes;
          storage = fits.storage;
          bounded = fits.bounded;
          small = fits.small;
        };
      }

  pub datagrams-released : datagrams released ≡ datagrams c
  unfolding released release datagrams datagram slot_offset release_slot copy_into
  datagrams-released =
      let apart = held_apart slot (free c.send_queue) (pending c.send_queue) held h.owns.split in
      map-datagram-packed slot [] h.fits apart.0 (omega arith) (pending c.send_queue) apart.1
        (λ x. omega (arith, h.owns.split.once x))

  module _ (frames : List CanFrame) (hf : AreFrames frames) where
    abbrev pub out : List ℕ
    out = buffer c (own c slot)

    pub commit_kept :
        (bytes : List ℕ)
        → length bytes ≤ 512
        → commit_encoded c (own c slot) (expected (length bytes), bytes ++ drop (length bytes) out)
          ≡ send_packet c (own c slot) bytes
    unfolding commit_encoded send_packet
    commit_kept bytes l = rw (fill-kept bytes l) refl

    pub refuse_kept :
        commit_encoded c (own c slot) (unexpected FleetErr.protocol_error, out)
        ≡ (FleetErr.protocol_error, released)
    unfolding commit_encoded released fill copy_into
    refuse_kept =
        ap (λ d. (FleetErr.protocol_error, (release d (own c slot)).0)) (fill-kept [] (omega arith))

    pub encode_ok :
        length frames ≤ 32
        → all_valid frames ≡ true
        → encode_into out 1 frames ≡ (
          expected (length (packet 1 frames)),
          packet 1 frames ++ drop (length (packet 1 frames)) out,
        )
    encode_ok l v =
        encode_into_lem out 1 frames hf ∙ ground (arith, length-buffer, length-packet 1 frames hf)

    pub encode_bad :
        (ltb 32 (length frames) ≡ true) ⊎ (all_valid frames ≡ false)
        → encode_into out 1 frames ≡ (unexpected FleetErr.protocol_error, out)
    encode_bad bad = encode_into_lem out 1 frames hf ∙ ground (arith, length-buffer)
