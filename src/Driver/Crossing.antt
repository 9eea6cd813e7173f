-- ===== src/Driver/Crossing.antt =====
-- The frames of one call of `send`, across the channel and into a decoder.
use mathlib.Core.List.{foldl}
use servo_fleet.Prelude.{
  ℕ, ◌+◌, ◌≤◌, ◌≡◌, ◌≢◌, refl, ap, ◌∙◌, sym, subst, arith, true, false, not, ◌||◌, ◌==◌, ltb,
  if◌then◌else◌, List, [], ◌∷◌, ◌++◌, length, length-append, ◌<◌, All, Option, none, some,
}
use servo_fleet.Error.{FleetErr, Result, expected, unexpected, is_error}
use servo_fleet.CanFrame.{CanFrame}
use servo_fleet.MotorCodec.{all_valid, decode_each, supported_type}
use servo_fleet.MotorCodec.Wire.{packet, AreFrames}
use servo_fleet.MotorCodec.Decode.{decode_each-packet}
use servo_fleet.Channel.RingQueue.Fifo.{pop_front}
use servo_fleet.Channel.PacketPool.{PacketPool, try_pop_pending}
use servo_fleet.Channel.Realtime.{
  RealtimeUdpChannel, PacketBuffer, prepare_send, commit_send, fill, release, Surroundings, is_sent,
  attempts, send_retry_count, handle_pending, tx_round,
}
use servo_fleet.Channel.Realtime.Packets.{datagrams}
use servo_fleet.Channel.Realtime.Queueing.{Ready}
use servo_fleet.Channel.Realtime.Transmit.{tx_round_lem}
use servo_fleet.Driver.{send_frames, send_encoded, commit_encoded}
use servo_fleet.Driver.Sending.{send_frames_spec, send_frames_lem}

-- A round in which nothing keeps a running channel from sending.
abbrev pub Accepts : Surroundings → Type 0
Accepts around =
    (is_error around.wait_error ≡ false)
    × (around.is_open ≡ true)
    × ((attempts around 0 send_retry_count).0 ≡ true)

-- Rounds of the transmit loop: the datagrams that the socket took, in order, and the channel.
abbrev pub taken :
    Option (List ℕ) → List (List ℕ) × RealtimeUdpChannel → List (List ℕ) × RealtimeUdpChannel
taken none r = r
taken (some d) (ds, c) = (d ∷ ds, c)

unfoldable pub tx_rounds :
    List Surroundings → RealtimeUdpChannel → List (List ℕ) × RealtimeUdpChannel
unfolding tx_round
tx_rounds [] c = ([], c)
tx_rounds (around ∷ rest) c = let (out, next) = tx_round around c in taken out (tx_rounds rest next)

release-stopped : (c : RealtimeUdpChannel) (p : PacketBuffer) → (release c p).0.stopped ≡ c.stopped
unfolding release
release-stopped c p = ground arith

handled-stopped :
    (around : Surroundings) (c : RealtimeUdpChannel) (o : Option (ℕ × ℕ)) (q : PacketPool)
    → (handle_pending around c (o, q)).1.stopped ≡ c.stopped
unfolding handle_pending
handled-stopped around c none q = refl
handled-stopped around c (some (slot, size)) q = refl

tx_round-stopped :
    (around : Surroundings) (c : RealtimeUdpChannel) → (tx_round around c).1.stopped ≡ c.stopped
unfolding tx_round
tx_round-stopped around c =
    handled-stopped around c (try_pop_pending c.send_queue).0 (try_pop_pending c.send_queue).1

commit_send-stopped :
    (c : RealtimeUdpChannel) (p : PacketBuffer) (size : ℕ)
    → (commit_send c p size).1.stopped ≡ c.stopped
unfolding commit_send
commit_send-stopped c p size = ground arith

commit_encoded-stopped :
    (c : RealtimeUdpChannel) (p : PacketBuffer) (r : Result ℕ) (bytes : List ℕ)
    → (commit_encoded c p (r, bytes)).1.stopped ≡ c.stopped
unfolding commit_encoded fill
commit_encoded-stopped c p (unexpected e) bytes = release-stopped (fill c p bytes) p
commit_encoded-stopped c p (expected size) bytes =
    let out = commit_send (fill c p bytes) p size in
    release-stopped out.1 out.2 ∙ commit_send-stopped (fill c p bytes) p size

prepare_send-stopped : (c : RealtimeUdpChannel) → (prepare_send c).1.stopped ≡ c.stopped
unfolding prepare_send
prepare_send-stopped c = ground arith

sent-stopped :
    (d : RealtimeUdpChannel) (frames : List CanFrame) (r : Result PacketBuffer)
    → (elim r as (λ x. FleetErr × RealtimeUdpChannel) [
      | unexpected e ↦ (e, d)
      | expected p ↦ send_encoded d p frames
    ]).1.stopped
      ≡ d.stopped
unfolding send_encoded
sent-stopped d frames (unexpected e) = refl
sent-stopped d frames (expected p) = commit_encoded-stopped d p _ _

send_frames-stopped :
    (c : RealtimeUdpChannel) (frames : List CanFrame) → (send_frames c frames).1.stopped ≡ c.stopped
unfolding send_frames send_encoded
send_frames-stopped c [] = refl
send_frames-stopped c (frame ∷ frames) =
    sent-stopped (prepare_send c).1 (frame ∷ frames) (prepare_send c).0 ∙ prepare_send-stopped c

Accepts-is_sent :
    (around : Surroundings) (c : RealtimeUdpChannel)
    → Accepts around
    → c.stopped ≡ false
    → is_sent around c ≡ true
unfolding is_sent attempts
Accepts-is_sent around c h r = ground (arith, h.0, h.1, h.2)

-- What a call that took `ds` from `c` leaves.
Drained : ℕ → List ℕ → List (List ℕ) → List (List ℕ) × RealtimeUdpChannel → Type 0
Drained n held ds (out, c) = (out ≡ ds) × (datagrams c ≡ []) × Ready n c held

taken-Drained :
    (n : ℕ) (held : List ℕ) (ds : List (List ℕ)) (d : List ℕ) (o : Option (List ℕ))
    (r : List (List ℕ) × RealtimeUdpChannel)
    → o ≡ some d
    → Drained n held ds r
    → Drained n held (d ∷ ds) (taken o r)
unfolding Drained
taken-Drained n held ds d o (out, c) e (h, k, t) =
    subst (λ x. Drained n held (d ∷ ds) (taken x (out, c))) (sym e) (ap (◌∷◌ d) h, k, t)

-- A round for each pending datagram sends them all, in order.
tx_rounds_lem :
    {n : ℕ} (arounds : List Surroundings) (ds : List (List ℕ)) (c : RealtimeUdpChannel)
    (held : List ℕ)
    → Ready n c held
    → c.stopped ≡ false
    → All Accepts arounds
    → datagrams c ≡ ds
    → length arounds ≡ length ds
    → Drained n held ds (tx_rounds arounds c)
unfolding tx_rounds Drained pop_front
tx_rounds_lem [] [] c held h r fine e same = (refl, e, h)
tx_rounds_lem [] (d ∷ ds) c held h r fine e same = absurd (omega arith)
tx_rounds_lem (around ∷ rest) [] c held h r fine e same = absurd (omega arith)
tx_rounds_lem {n} (around ∷ rest) (d ∷ ds) c held h r fine e same =
    let round = tx_round_lem around c held h in
    let next = (tx_round around c).1 in
    let sends : is_sent around c ≡ true = Accepts-is_sent around c fine.0 r in
    let first : (tx_round around c).0 ≡ some d =
      round.0
      ∙ ap (λ b. if b then (pop_front (datagrams c)).0 else none) sends
      ∙ ap (λ l. (pop_front l).0) e in
    taken-Drained n held ds d (tx_round around c).0 (tx_rounds rest next) first (
      tx_rounds_lem rest ds next held round.2 (tx_round-stopped around c ∙ r) fine.1
        (round.1 ∙ ap (λ l. (pop_front l).1) e) (omega arith))

accepted_spec :
    (n : ℕ) (c : RealtimeUdpChannel) (held : ℕ) (frames : List CanFrame)
    → c.stopped ≡ false
    → length (datagrams c) + held ≢ n
    → all_valid frames ≡ true
    → 0 < length frames
    → length frames ≤ 32
    → send_frames_spec n c held frames ≡ (FleetErr.ok, datagrams c ++ (packet 1 frames ∷ []))
unfolding send_frames_spec datagrams
accepted_spec n c held [] r room v some_frames few = absurd (omega arith)
accepted_spec n c held (f ∷ fs) r room v some_frames few =
    let free : (length (datagrams c) + held == n) ≡ false = ground arith in
    let fine : (ltb 32 (length (f ∷ fs)) || not (all_valid (f ∷ fs))) ≡ false = ground arith in
    rw (r, free, fine) refl

-- 1 to 32 valid frames, sent on a ready channel that is not stopped and has a free slot, followed by
-- as many rounds of the transmit loop as there are pending datagrams then, in which neither the
-- rate limit nor the socket fails: the call succeeds, the socket takes the datagrams that were
-- pending, in order, and last one that a decoder accepts and from which its handler gets exactly
-- these frames, in order; none stays pending.
pub send_frames-tx_rounds :
    {n : ℕ} {S : Type 0} (handler : S → CanFrame → S) (s : S) (arounds : List Surroundings)
    (c : RealtimeUdpChannel) (held : List ℕ) (frames : List CanFrame)
    → Ready n c held
    → c.stopped ≡ false
    → length (datagrams c) + length held ≢ n
    → AreFrames frames
    → all_valid frames ≡ true
    → 0 < length frames
    → length frames ≤ 32
    → All Accepts arounds
    → length arounds ≡ length (datagrams c) + 1
    → ((send_frames c frames).0 ≡ FleetErr.ok)
      × (last : List ℕ) × ((tx_rounds arounds (send_frames c frames).1).0
          ≡ datagrams c ++ (last ∷ []))
      × (decode_each last (some handler) s ≡ (FleetErr.ok, foldl handler s frames))
      × (datagrams (tx_rounds arounds (send_frames c frames).1).1 ≡ [])
unfolding Drained
send_frames-tx_rounds {n} handler s arounds c held frames h r room hf v some_frames few fine
      rounds =
    let done = send_frames_lem c held frames h hf in
    let spec = done.0 ∙ accepted_spec n c (length held) frames r room v some_frames few in
    let drained =
      tx_rounds_lem arounds (datagrams c ++ (packet 1 frames ∷ [])) (send_frames c frames).1 held
        done.1 (send_frames-stopped c frames ∙ r) fine (ap (λ p. p.1) spec)
        (omega (arith, rounds, length-append (datagrams c) (packet 1 frames ∷ []))) in
    (
      ap (λ p. p.0) spec,
      packet 1 frames,
      drained.0,
      decode_each-packet handler 1 frames s (unfold supported_type in refl) hf v few,
      drained.1,
    )
