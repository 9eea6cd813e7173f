-- ===== src/Runtime/Global/Lanes.antt =====
-- The lanes that a new pool starts with, and that `discard_pending` keeps, are in order.
use servo_fleet.Prelude.{
  ℕ, zero, suc, ◌+◌, ◌≡◌, refl, ap, sym, subst, arith, List, [], ◌∷◌, map, copy_into,
}
use servo_fleet.Channel.RingQueue.{FixedRingQueue, try_pop}
use servo_fleet.Channel.PacketPool.{
  PacketPool, try_pop_pending, release_slot, discard_rounds, discard_pending, pending_count,
}
use servo_fleet.Channel.PacketPool.Ownership.{
  pending, discard_pending-Owns, try_pop_pending-eq, try_pop_pending-none-eq,
}
use servo_fleet.Channel.Realtime.{RealtimeUdpChannel, discard_pending_sends}
use servo_fleet.Channel.Realtime.Packets.{Fits, packed-Fits}
use servo_fleet.Channel.Realtime.Queueing.{Ready}
use servo_fleet.Runtime.Commanding.{Lane}
use servo_fleet.Runtime.Delivering.{Goes, done, next, same-Extends}

queue-Fits :
    {n : ℕ} {p : PacketPool} (q : FixedRingQueue)
    → Fits n p
    → Fits n (record p { pending_slots = q })
queue-Fits q h = record {
  cap = h.cap;
  sizes = h.sizes;
  storage = h.storage;
  bounded = h.bounded;
  small = h.small;
}

release_slot-Fits : {n : ℕ} (p : PacketPool) (slot : ℕ) → Fits n p → Fits n (release_slot p slot)
unfolding release_slot copy_into
release_slot-Fits p slot h =
    let fits = packed-Fits slot [] (omega arith) h in
    record {
      cap = fits.cap;
      sizes = fits.sizes;
      storage = fits.storage;
      bounded = fits.bounded;
      small = fits.small;
    }

discard_rounds-Fits :
    {n : ℕ} (k : ℕ) (p : PacketPool) (q : List ℕ)
    → pending p ≡ q
    → Fits n p
    → Fits n (discard_rounds k p)
unfolding discard_rounds
discard_rounds-Fits zero p q e h = h
discard_rounds-Fits {n} (suc k) p [] e h =
    let eq = try_pop_pending-none-eq p e in
    rw (ap (λ r. r.0) eq, discard_rounds)
      (subst (λ r. Fits n r.1) (sym eq) (queue-Fits (try_pop p.pending_slots).1 h))
discard_rounds-Fits {n} (suc k) p (slot ∷ rest) e h =
    let eq = try_pop_pending-eq p slot rest e in
    rw (ap (λ r. r.0) eq, discard_rounds)
      (discard_rounds-Fits k (release_slot (try_pop_pending p).1 slot) _ refl (
        release_slot-Fits (try_pop_pending p).1 slot
          (subst (λ r. Fits n r.1) (sym eq) (queue-Fits (try_pop p.pending_slots).1 h))))

discard-Ready :
    {n : ℕ} (c : RealtimeUdpChannel) → Ready n c [] → Ready n (discard_pending_sends c) []
unfolding discard_pending_sends discard_pending
discard-Ready c h = record {
  owns = (discard_pending-Owns [] h.owns).0;
  fits = discard_rounds-Fits (pending_count c.send_queue + 1) c.send_queue _ refl h.fits;
}

-- The lanes are in order, for channels of these numbers of slots.
abbrev pub AllInOrder : List ℕ → List Lane → Type 0
AllInOrder ns ls = Goes ns ls ls

pub Goes-AllInOrder : {ns : List ℕ} {ls ms : List Lane} → Goes ns ls ms → AllInOrder ns ms
Goes-AllInOrder done = done
Goes-AllInOrder (next n l m h e g) = next n m m h (same-Extends _) (Goes-AllInOrder g)

pub discard-AllInOrder :
    {ns : List ℕ} {ls ms : List Lane}
    → Goes ns ls ms
    → AllInOrder ns (map (λ (l : Lane). record l { channel = discard_pending_sends l.channel }) ms)
discard-AllInOrder done = done
discard-AllInOrder (next n l m h e g) =
    next n _ _
      (record { addresses = h.addresses; batch = h.batch; ready = discard-Ready m.channel h.ready })
      (same-Extends _) (discard-AllInOrder g)
