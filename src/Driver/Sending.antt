-- ===== src/Driver/Sending.antt =====
-- The driver puts one packet of the wire format on the channel, or leaves the channel as it was.
use servo_fleet.Prelude.{
  ℕ, ◌+◌, ◌≤◌, ◌==◌, ltb, if◌then◌else◌, List, [], ◌∷◌, ◌++◌, length, ◌||◌, not, ◌≡◌, refl, arith,
  ap, ap₂, ◌∙◌, sym, subst, ◌⊎◌, Bool-cases, inl, inr, true, false,
}
use servo_fleet.Error.{FleetErr, expected, unexpected}
use servo_fleet.CanFrame.{CanFrame}
use servo_fleet.MotorCodec.{all_valid}
use servo_fleet.MotorCodec.Wire.{packet, AreFrames}
use servo_fleet.MotorCodec.Encode.{length-packet}
use servo_fleet.Channel.PacketPool.{acquire_slot}
use servo_fleet.Channel.PacketPool.Ownership.{free, acquire_slot-eq, acquire_slot_none, enqueue-eq}
use servo_fleet.Channel.Realtime.{RealtimeUdpChannel, prepare_send}
use servo_fleet.Channel.Realtime.Packets.{datagrams}
use servo_fleet.Channel.Realtime.Queueing.{
  Ready, send_packet_eq, queued, queued-Ready, datagrams-queued, filled-Owns, p,
}
use servo_fleet.Channel.Realtime.Datagrams.{
  pair, popped, popped-Ready, popped-none-Ready, datagrams-popped, used, full, room,
}
use servo_fleet.Driver.{commit_encoded, send_encoded, send_frames}
use servo_fleet.Driver.Buffers.{
  own, released-Ready, datagrams-released, commit_kept, refuse_kept, encode_ok, encode_bad,
}

-- What the driver promises, with `slots` packets of which callers hold `held`.
unfoldable pub send_frames_spec :
    ℕ → RealtimeUdpChannel → ℕ → List CanFrame → FleetErr × List (List ℕ)
send_frames_spec slots c held [] = (FleetErr.ok, datagrams c)
send_frames_spec slots c held (frame ∷ frames) =
    if c.stopped
    then (FleetErr.cancelled, datagrams c)
    else if length (datagrams c) + held == slots
    then (FleetErr.busy, datagrams c)
    else if ltb 32 (length (frame ∷ frames)) || not (all_valid (frame ∷ frames))
    then (FleetErr.protocol_error, datagrams c)
    else (FleetErr.ok, datagrams c ++ (packet 1 (frame ∷ frames) ∷ []))

module _ {n : ℕ} (c : RealtimeUdpChannel) (held : List ℕ) (h : Ready n c held) (frame : CanFrame)
    (rest : List CanFrame) (hf : AreFrames (frame ∷ rest)) where
  frames : List CanFrame
  frames = frame ∷ rest

  Kept : FleetErr → List (List ℕ) → FleetErr × RealtimeUdpChannel → Type 0
  Kept e ds r = (r.0 ≡ e) × (datagrams r.1 ≡ ds) × Ready n r.1 held

  acquired :
      (slot : ℕ)
      → c.stopped ≡ false
      → (acquire_slot c.send_queue).0 ≡ expected slot
      → send_frames c frames
        ≡ send_encoded (record c { send_queue = (acquire_slot c.send_queue).1 }) (own c slot) frames
  unfolding send_frames prepare_send frames
  acquired slot r e = ground arith

  refused :
      (e : FleetErr)
      → c.stopped ≡ false
      → (acquire_slot c.send_queue).0 ≡ unexpected e
      → send_frames c frames ≡ (e, record c { send_queue = (acquire_slot c.send_queue).1 })
  unfolding send_frames prepare_send frames
  refused e r q = ground arith

  stopped : c.stopped ≡ true → send_frames c frames ≡ (FleetErr.cancelled, c)
  unfolding send_frames prepare_send frames
  stopped r = ground arith

  -- The call once it holds `slot`.
  sent_with :
      (slot : ℕ) (slots : List ℕ)
      → c.stopped ≡ false
      → free c.send_queue ≡ slot ∷ slots
      → send_frames c frames ≡ send_encoded (popped c) (own (popped c) slot) frames
  sent_with slot slots r e =
      let eq = acquire_slot-eq c.send_queue slot slots e in
      acquired slot r (ap (λ x. x.0) eq)
      ∙ ap (λ x. send_encoded (record c { send_queue = x.1 }) (own c slot) frames) eq

  sent_ok :
      (slot : ℕ) (slots : List ℕ)
      → c.stopped ≡ false
      → free c.send_queue ≡ slot ∷ slots
      → length frames ≤ 32
      → all_valid frames ≡ true
      → Kept FleetErr.ok (datagrams c ++ (packet 1 frames ∷ [])) (send_frames c frames)
  unfolding Kept frames queued p send_encoded
  sent_ok slot slots r e l v =
      let ready = popped-Ready c held h slot slots e in
      let small : length (packet 1 frames) ≤ 512 = omega (arith, length-packet 1 frames hf) in
      let eq =
        sent_with slot slots r e
        ∙ ap (commit_encoded (popped c) (own (popped c) slot))
            (encode_ok (popped c) slot held ready frames hf l v)
        ∙ commit_kept (popped c) slot held ready frames hf (packet 1 frames) small
        ∙ send_packet_eq (popped c) (packet 1 frames) slot r small in
      subst (Kept FleetErr.ok (datagrams c ++ (packet 1 frames ∷ []))) (sym eq) (
        ap (λ x. x.0)
            (enqueue-eq slot held (filled-Owns slot (packet 1 frames) (slot ∷ held) ready.owns)
              (length (packet 1 frames))),
        datagrams-queued (popped c) (packet 1 frames) slot held ready small
            ∙ ap (λ ds. ds ++ (packet 1 frames ∷ [])) (datagrams-popped c),
        queued-Ready (popped c) (packet 1 frames) slot held ready small,
      )

  sent_bad :
      (slot : ℕ) (slots : List ℕ)
      → c.stopped ≡ false
      → free c.send_queue ≡ slot ∷ slots
      → (ltb 32 (length frames) ≡ true) ⊎ (all_valid frames ≡ false)
      → Kept FleetErr.protocol_error (datagrams c) (send_frames c frames)
  unfolding Kept frames send_encoded
  sent_bad slot slots r e bad =
      let ready = popped-Ready c held h slot slots e in
      let eq =
        sent_with slot slots r e
        ∙ ap (commit_encoded (popped c) (own (popped c) slot))
            (encode_bad (popped c) slot held ready frames hf bad)
        ∙ refuse_kept (popped c) slot held ready frames hf in
      subst (Kept FleetErr.protocol_error (datagrams c)) (sym eq) (
        refl,
        datagrams-released (popped c) slot held ready ∙ datagrams-popped c,
        released-Ready (popped c) slot held ready,
      )

  sent_busy :
      c.stopped ≡ false
      → free c.send_queue ≡ []
      → Kept FleetErr.busy (datagrams c) (send_frames c frames)
  unfolding Kept
  sent_busy r e =
      let eq = acquire_slot_none c.send_queue e in
      let refusal =
        refused FleetErr.busy r (ap (λ x. x.0) eq)
        ∙ ap (λ x. (FleetErr.busy, record c { send_queue = x.1 })) eq in
      subst (Kept FleetErr.busy (datagrams c)) (sym refusal)
        (refl, datagrams-popped c, popped-none-Ready c held h e)

  sent_stopped : c.stopped ≡ true → Kept FleetErr.cancelled (datagrams c) (send_frames c frames)
  unfolding Kept
  sent_stopped r = subst (Kept FleetErr.cancelled (datagrams c)) (sym (stopped r)) (refl, refl, h)

  sent_running :
      (slots : List ℕ)
      → free c.send_queue ≡ slots
      → c.stopped ≡ false
      → (e : FleetErr) × (ds : List (List ℕ)) × (send_frames_spec n c (length held) frames
          ≡ (e, ds))
        × Kept e ds (send_frames c frames)
  unfolding send_frames_spec frames datagrams
  sent_running [] e r = (
    FleetErr.busy,
    datagrams c,
    rw
        (
          r,
          send_frames_spec,
          full c held [] h (length (free c.send_queue)) (used c held [] h) (ap length e),
        )
        refl,
    sent_busy r e,
  )
  sent_running (slot ∷ slots) e r =
      elim (Bool-cases (ltb 32 (length frames) || not (all_valid frames))) [
        | inl bad ↦ (
          FleetErr.protocol_error,
          datagrams c,
          rw
              (
                r,
                send_frames_spec,
                room c held [] h (length (free c.send_queue)) (used c held [] h)
                    (omega (arith, ap length e)),
                bad,
              )
              refl,
          sent_bad slot slots r e (ground arith),
        )
        | inr good ↦ (
          FleetErr.ok,
          datagrams c ++ (packet 1 frames ∷ []),
          rw
              (
                r,
                send_frames_spec,
                room c held [] h (length (free c.send_queue)) (used c held [] h)
                    (omega (arith, ap length e)),
                good,
              )
              refl,
          sent_ok slot slots r e (ground arith) (ground arith),
        )
      ]

  Promised : FleetErr × RealtimeUdpChannel → Type 0
  Promised r = ((r.0, datagrams r.1) ≡ send_frames_spec n c (length held) frames) × Ready n r.1 held

  Kept-Promised :
      (e : FleetErr) (ds : List (List ℕ))
      → send_frames_spec n c (length held) frames ≡ (e, ds)
      → Kept e ds (send_frames c frames)
      → Promised (send_frames c frames)
  unfolding Promised Kept
  Kept-Promised e ds spec kept = (ap₂ pair kept.0 kept.1 ∙ sym spec, kept.2)

  sent-Promised : Promised (send_frames c frames)
  unfolding send_frames_spec frames
  sent-Promised = elim (Bool-cases c.stopped) [
    | inl r ↦
        Kept-Promised FleetErr.cancelled (datagrams c) (rw (r, send_frames_spec) refl)
          (sent_stopped r)
    | inr r ↦
        let (e, ds, spec, kept) = sent_running (free c.send_queue) refl r in
        Kept-Promised e ds spec kept
  ]

-- What `send` of the driver does on a ready channel: nothing for no frames; it refuses when the
-- channel is stopped, when all slots are taken, and when the codec refuses the frames, more than 32
-- or one that is not valid, each time with the pending datagrams as they were and no slot lost;
-- else exactly one datagram joins the queue, the packet of type 1 that holds the frames.
pub send_frames_lem :
    {n : ℕ} (c : RealtimeUdpChannel) (held : List ℕ) (frames : List CanFrame)
    → Ready n c held
    → AreFrames frames
    → (((send_frames c frames).0, datagrams (send_frames c frames).1)
        ≡ send_frames_spec n c (length held) frames)
      × Ready n (send_frames c frames).1 held
unfolding send_frames send_frames_spec Promised frames
send_frames_lem c held [] h hf = (refl, h)
send_frames_lem c held (frame ∷ rest) h hf = sent-Promised c held h frame rest hf
