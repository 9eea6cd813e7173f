-- ===== src/Channel/Realtime/Transmit.antt =====
-- The transmit loop takes the oldest datagram, whatever comes of it.
use servo_fleet.Prelude.{
  ℕ, zero, suc, ◌+◌, ◌≤◌, List, [], ◌∷◌, map, Option, none, some, ◌≡◌, refl, arith, ap, ◌∙◌, sym,
  subst, Bool, true, false, copy_into, if◌then◌else◌,
}
use servo_fleet.Channel.RingQueue.Fifo.{pop_front, pop_some, pop_none}
use servo_fleet.Channel.RingQueue.{try_pop}
use servo_fleet.Channel.PacketPool.{PacketPool, release_slot, slot_offset}
use servo_fleet.Channel.PacketPool.Ownership.{
  Owns, pending, try_pop_pending-Owns, try_pop_pending-none, release_slot-Owns, try_pop_pending-eq,
  try_pop_pending-none-eq,
}
use servo_fleet.Channel.PacketPool.Slots.{held_apart, count_of}
use servo_fleet.Channel.Realtime.{
  RealtimeUdpChannel, Surroundings, attempts, is_sent, handle_pending, tx_round, send_retry_count,
}
use servo_fleet.Channel.Realtime.Packets.{datagram, datagrams, packed-Fits, map-datagram-packed}
use servo_fleet.Channel.Realtime.Queueing.{Ready}

-- No more than `n` calls of `send_to`.
attempts-le : (around : Surroundings) (attempt n : ℕ) → (attempts around attempt n).1 ≤ attempt + n
unfolding attempts
attempts-le around attempt zero = omega arith
attempts-le around attempt (suc n) = ground (arith, attempts-le around (attempt + 1) n)

module _ {n : ℕ} (around : Surroundings) (c : RealtimeUdpChannel) (held : List ℕ)
    (h : Ready n c held) where
  p : PacketPool
  p = c.send_queue

  -- The channel after a round that found `slot` pending.
  left : ℕ → RealtimeUdpChannel
  left slot = record c {
    send_queue = release_slot (record p { pending_slots = (try_pop p.pending_slots).1 }) slot;
  }

  left-Ready :
      (slot : ℕ) (rest : List ℕ) → pending c.send_queue ≡ slot ∷ rest → Ready n (left slot) held
  unfolding left release_slot copy_into p
  left-Ready slot rest e =
      let fits = packed-Fits slot [] (omega arith) h.fits in
      record {
        owns = release_slot-Owns slot held (
            subst (λ r. Owns n r.1 (slot ∷ held)) (try_pop_pending-eq c.send_queue slot rest e)
              (try_pop_pending-Owns held h.owns slot rest e).1);
        fits = record {
          cap = fits.cap;
          sizes = fits.sizes;
          storage = fits.storage;
          bounded = fits.bounded;
          small = fits.small;
        };
      }

  datagrams-left :
      (slot : ℕ) (rest : List ℕ)
      → pending c.send_queue ≡ slot ∷ rest
      → datagrams (left slot) ≡ map (datagram c.send_queue) rest
  unfolding datagrams left datagram slot_offset release_slot copy_into p
  datagrams-left slot rest e =
      let popped = try_pop_pending-Owns held h.owns slot rest e in
      let apart = held_apart slot _ _ held popped.1.split in
      ap (map (datagram (left slot).send_queue)) (pop_some p.pending_slots e).1
      ∙ map-datagram-packed slot [] h.fits apart.0 (omega arith) rest
          (subst (λ xs. count_of slot xs ≡ 0) popped.2 apart.1)
          (λ x. rw⁻¹ popped.2 (omega (arith, popped.1.split.once x)))

  tx_round-some :
      (slot : ℕ) (rest : List ℕ)
      → pending c.send_queue ≡ slot ∷ rest
      → tx_round around c ≡ (if is_sent around c then some (datagram p slot) else none, left slot)
  unfolding tx_round handle_pending datagram left p slot_offset release_slot
  tx_round-some slot rest e =
      ap (handle_pending around c) (try_pop_pending-eq c.send_queue slot rest e)

  Done : Option (List ℕ) × RealtimeUdpChannel → Type 0
  Done r =
      (r.0 ≡ (if is_sent around c then (pop_front (datagrams c)).0 else none))
      × (datagrams r.1 ≡ (pop_front (datagrams c)).1)
      × Ready n r.1 held

  none_either : (b : Bool) (o : Option (List ℕ)) → o ≡ none → none ≡ (if b then o else none)
  none_either true o e = sym e
  none_either false o e = refl

  tx_round_none : pending c.send_queue ≡ [] → Done (tx_round around c)
  unfolding Done tx_round handle_pending datagrams datagram slot_offset pop_front p
  tx_round_none e =
      let eq = try_pop_pending-none-eq p e in
      subst Done (sym (ap (handle_pending around c) eq)) (
        none_either (is_sent around c) _ (rw (e, pop_front) refl),
        ap (map (datagram p)) (pop_none p.pending_slots e).1 ∙ rw (e, pop_front) refl,
        record {
          owns = subst (λ r. Owns n r.1 held) eq (try_pop_pending-none held h.owns e).1;
          fits = record {
            cap = h.fits.cap;
            sizes = h.fits.sizes;
            storage = h.fits.storage;
            bounded = h.fits.bounded;
            small = h.fits.small;
          };
        },
      )

  tx_round_at : (slots : List ℕ) → pending c.send_queue ≡ slots → Done (tx_round around c)
  unfolding Done datagrams pop_front p
  tx_round_at [] e = tx_round_none e
  tx_round_at (slot ∷ rest) e = subst Done (sym (tx_round-some slot rest e)) (
    rw (e, pop_front) refl,
    rw (e, pop_front) (datagrams-left slot rest e),
    left-Ready slot rest e,
  )

-- A round of the transmit loop takes the oldest datagram out of the queue, whatever it finds around
-- it, and keeps the channel ready; the socket gets that datagram, whole, or nothing, and is
-- called three times at most.
pub tx_round_lem :
    {n : ℕ} (around : Surroundings) (c : RealtimeUdpChannel) (held : List ℕ)
    → Ready n c held
    → ((tx_round around c).0 ≡ (if is_sent around c then (pop_front (datagrams c)).0 else none))
      × (datagrams (tx_round around c).1 ≡ (pop_front (datagrams c)).1)
      × Ready n (tx_round around c).1 held
      × ((attempts around 0 send_retry_count).1 ≤ 3)
unfolding Done
tx_round_lem around c held h =
    let done = tx_round_at around c held h (pending c.send_queue) refl in
    (done.0, done.1, done.2, attempts-le around 0 3)
