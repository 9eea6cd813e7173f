-- ===== src/Channel/Udp/Accepting.antt =====
-- What the plain channel accepts.
use servo_fleet.Prelude.{
  ℕ, ◌+◌, ◌≡◌, refl, ap, ◌∙◌, sym, subst, arith, ltb, ◌==◌, if◌then◌else◌, Bool, true, false, List,
  [], ◌∷◌, length, length-append,
}
use servo_fleet.Error.{FleetErr, expected, is_error}
use servo_fleet.Channel.RingQueue.{try_pop}
use servo_fleet.Channel.PacketPool.{PacketPool, acquire_slot}
use servo_fleet.Channel.PacketPool.Ownership.{
  Owns, free, pending, acquire_slot-Owns, acquire_slot-eq, acquire_slot_none, acquire_slot_busy,
  enqueue-Owns,
}
use servo_fleet.Channel.Realtime.Queueing.{filled-Owns}
use servo_fleet.Channel.Udp.{UdpChannel, udp_packet_cap, send_in, send}

-- The error of `send`, for a channel of `slots` packets of which `held` are with its thread.
abbrev pub send_error : ℕ → UdpChannel → ℕ → List ℕ → FleetErr
send_error slots c held bytes =
    if ltb udp_packet_cap (length bytes)
    then FleetErr.invalid_argument
    else if c.stopped
    then FleetErr.cancelled
    else if length (pending c.send_queue) + held == slots
    then FleetErr.busy
    else FleetErr.ok

-- A result with this error, and one packet more exactly if there is none.
abbrev pub Answers : ℕ → UdpChannel → List ℕ → FleetErr → FleetErr × UdpChannel → Type 0
Answers n c held error r =
    (r.0 ≡ error)
    × Owns n r.1.send_queue held
    × (length (pending r.1.send_queue)
        ≡ length (pending c.send_queue) + (if is_error error then 0 else 1))

module _ {n : ℕ} (c : UdpChannel) (held bytes : List ℕ) (h : Owns n c.send_queue held) where
  popped : PacketPool
  popped = record c.send_queue { free_slots = (try_pop c.send_queue.free_slots).1 }

  -- The channel after the packet in `slot` was queued.
  queued_lem :
      (slot : ℕ)
      → Owns n popped (slot ∷ held)
      → Answers n c held FleetErr.ok (send_in c bytes (expected slot, popped))
  unfolding send_in popped
  queued_lem slot owns =
      let (ok, after, more) =
        enqueue-Owns slot held (filled-Owns slot bytes (slot ∷ held) owns) (length bytes) in
      (ok, after, ap length more ∙ length-append (pending c.send_queue) (slot ∷ []))

  taken_lem :
      (slots : List ℕ)
      → free c.send_queue ≡ slots
      → Answers n c held
          (if length (pending c.send_queue) + length held == n then FleetErr.busy else FleetErr.ok)
          (send_in c bytes (acquire_slot c.send_queue))
  unfolding send_in popped
  taken_lem [] e =
      let eq = acquire_slot_none c.send_queue e in
      let (busy, owns) = acquire_slot_busy held h e in
      let full : (length (pending c.send_queue) + length held == n) ≡ true =
        ground (arith, h.split.total, ap length e) in
      rw full (
        subst (λ r. Answers n c held FleetErr.busy (send_in c bytes r)) (sym eq)
          (refl, subst (λ r. Owns n r.1 held) eq owns, omega arith))
  taken_lem (slot ∷ rest) e =
      let eq = acquire_slot-eq c.send_queue slot rest e in
      let (found, owns) = acquire_slot-Owns held h slot rest e in
      let room : (length (pending c.send_queue) + length held == n) ≡ false =
        ground (arith, h.split.total, ap length e) in
      rw room (
        subst (λ r. Answers n c held FleetErr.ok (send_in c bytes r)) (sym eq)
          (queued_lem slot (subst (λ r. Owns n r.1 (slot ∷ held)) eq owns)))

  refused_lem :
      (large stopped : Bool) (e : FleetErr) (r : FleetErr × UdpChannel)
      → Answers n c held e r
      → Answers n c held
          (if large then FleetErr.invalid_argument else if stopped then FleetErr.cancelled else e)
          (if large
            then (FleetErr.invalid_argument, c)
            else if stopped
            then (FleetErr.cancelled, c)
            else r)
  refused_lem true stopped e r a = (refl, h, omega arith)
  refused_lem false true e r a = (refl, h, omega arith)
  refused_lem false false e r a = a

-- `send` of the plain channel refuses more than 128 bytes, then a stopped channel, then a queue whose
-- slots are all pending or with the thread. Otherwise one packet more is pending; a refusal leaves
-- as many as before. No slot is lost.
pub udp_send_lem :
    {n : ℕ} (c : UdpChannel) (held bytes : List ℕ)
    → Owns n c.send_queue held
    → Answers n c held (send_error n c (length held) bytes) (send c bytes)
unfolding send
udp_send_lem c held bytes h =
    refused_lem c held bytes h (ltb udp_packet_cap (length bytes)) c.stopped _
      (send_in c bytes (acquire_slot c.send_queue))
      (taken_lem c held bytes h (free c.send_queue) refl)
