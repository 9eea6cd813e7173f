-- ===== src/Channel/Realtime/Datagrams.antt =====
-- The realtime channel as a bounded queue of datagrams.
use servo_fleet.Prelude.{
  ℕ, suc, ◌+◌, ◌<◌, ◌≤◌, ◌==◌, ltb, if◌then◌else◌, List, [], ◌∷◌, ◌++◌, map, length, ◌≡◌, refl,
  arith, ap, ap₂, ◌∙◌, inl, inr, false, some, sym, subst, Bool-cases, true,
}
use servo_fleet.Error.{FleetErr}
use servo_fleet.Channel.PacketPool.{slot_offset}
use servo_fleet.Channel.PacketPool.Ownership.{
  Owns, free, pending, enqueue-eq, acquire_slot-eq, acquire_slot_none, acquire_slot-Owns,
  acquire_slot_busy,
}
use servo_fleet.Channel.RingQueue.{try_pop}
use servo_fleet.Channel.Realtime.{
  RealtimeUdpChannel, motor_udp_packet_cap, send, send_packet, prepare_send,
}
use servo_fleet.Channel.Realtime.Packets.{datagram, datagrams, Fits}
use servo_fleet.Channel.Realtime.Queueing.{
  datagrams-queued, send_packet_eq, send_free, send_busy, Ready, filled-Owns, p, queued,
  queued-Ready,
}

-- The pool once `acquire_slot` has tried the free queue.
abbrev pub popped : RealtimeUdpChannel → RealtimeUdpChannel
popped c =
    let p = c.send_queue in
    record c { send_queue = record p { free_slots = (try_pop p.free_slots).1 } }

popped-Fits : {n : ℕ} (c : RealtimeUdpChannel) → Fits n c.send_queue → Fits n (popped c).send_queue
popped-Fits c h = record {
  cap = h.cap;
  sizes = h.sizes;
  storage = h.storage;
  bounded = h.bounded;
  small = h.small;
}

module _ {n : ℕ} (c : RealtimeUdpChannel) (held : List ℕ) (h : Ready n c held) where
  -- A channel whose free queue has been popped is ready with the slot held.
  pub popped-Ready :
      (slot : ℕ) (rest : List ℕ)
      → free c.send_queue ≡ slot ∷ rest
      → Ready n (popped c) (slot ∷ held)
  popped-Ready slot rest e = record {
    owns =
        subst (λ r. Owns n r.1 (slot ∷ held)) (acquire_slot-eq c.send_queue slot rest e)
          (acquire_slot-Owns held h.owns slot rest e).1;
    fits = popped-Fits c h.fits;
  }

  pub popped-none-Ready : free c.send_queue ≡ [] → Ready n (popped c) held
  popped-none-Ready e = record {
    owns =
        subst (λ r. Owns n r.1 held) (acquire_slot_none c.send_queue e)
          (acquire_slot_busy held h.owns e).1;
    fits = popped-Fits c h.fits;
  }

pub datagrams-popped : (c : RealtimeUdpChannel) → datagrams (popped c) ≡ datagrams c
unfolding datagrams datagram slot_offset
datagrams-popped c = refl

module _ {n : ℕ} (c : RealtimeUdpChannel) (held bytes : List ℕ) (h : Ready n c held)
    (running : c.stopped ≡ false) (l : length bytes ≤ 512) where
  send_some :
      (slot : ℕ) (rest : List ℕ)
      → free c.send_queue ≡ slot ∷ rest
      → ((send c bytes).0 ≡ FleetErr.ok)
        × Ready n (send c bytes).1 held
        × (datagrams (send c bytes).1 ≡ datagrams c ++ (bytes ∷ []))
  unfolding queued p datagrams datagram slot_offset
  send_some slot rest e =
      let eq = acquire_slot-eq c.send_queue slot rest e in
      let ready : Ready n (popped c) (slot ∷ held) = record {
        owns =
            subst (λ r. Owns n r.1 (slot ∷ held)) eq (acquire_slot-Owns held h.owns slot rest e).1;
        fits = popped-Fits c h.fits;
      } in
      let sent =
        send_free c bytes slot running l (ap (λ r. r.0) eq)
        ∙ ap
            (λ r.
              send_packet (record c { send_queue = r.1 })
                (record { owner = some c.self; slot = slot }) bytes)
            eq
        ∙ send_packet_eq (popped c) bytes slot running l in
      subst
        (λ r.
          (r.0 ≡ FleetErr.ok) × Ready n r.1 held × (datagrams r.1 ≡ datagrams c ++ (bytes ∷ [])))
        (sym sent)
        (
          ap (λ r. r.0)
              (enqueue-eq slot held (filled-Owns slot bytes (slot ∷ held) ready.owns)
                (length bytes)),
          queued-Ready (popped c) bytes slot held ready l,
          datagrams-queued (popped c) bytes slot held ready l,
        )

  send_none :
      free c.send_queue ≡ []
      → ((send c bytes).0 ≡ FleetErr.busy)
        × Ready n (send c bytes).1 held
        × (datagrams (send c bytes).1 ≡ datagrams c)
  unfolding datagrams datagram slot_offset
  send_none e =
      let eq = acquire_slot_none c.send_queue e in
      let sent =
        send_busy c bytes running l (ap (λ r. r.0) eq)
        ∙ ap (λ r. (FleetErr.busy, record c { send_queue = r.1 })) eq in
      subst (λ r. (r.0 ≡ FleetErr.busy) × Ready n r.1 held × (datagrams r.1 ≡ datagrams c))
        (sym sent)
        (
          refl,
          record {
            owns = subst (λ r. Owns n r.1 held) eq (acquire_slot_busy held h.owns e).1;
            fits = popped-Fits c h.fits;
          },
          refl,
        )

length-map : {A B : Type 0} (f : A → B) (xs : List A) → length (map f xs) ≡ length xs
length-map f [] = refl
length-map f (x ∷ xs) = ap suc (length-map f xs)

-- What `send` promises of a channel with room for `slots` datagrams, of which its callers hold
-- `held`: the order of its refusals, and the queue after it.
unfoldable pub send_spec : ℕ → RealtimeUdpChannel → ℕ → List ℕ → FleetErr × List (List ℕ)
send_spec slots c held bytes =
    if ltb motor_udp_packet_cap (length bytes)
    then (FleetErr.invalid_argument, datagrams c)
    else if c.stopped
    then (FleetErr.cancelled, datagrams c)
    else if length (datagrams c) + held == slots
    then (FleetErr.busy, datagrams c)
    else (FleetErr.ok, datagrams c ++ (bytes ∷ []))

send_large :
    (c : RealtimeUdpChannel) (bytes : List ℕ)
    → ltb 512 (length bytes) ≡ true
    → send c bytes ≡ (FleetErr.invalid_argument, c)
unfolding send
send_large c bytes e = rw (e, send) refl

send_stopped :
    (c : RealtimeUdpChannel) (bytes : List ℕ)
    → ltb 512 (length bytes) ≡ false
    → c.stopped ≡ true
    → send c bytes ≡ (FleetErr.cancelled, c)
unfolding send prepare_send
send_stopped c bytes e s = ground (arith)

abbrev pub pair : FleetErr → List (List ℕ) → FleetErr × List (List ℕ)
pair e ds = (e, ds)

module _ {n : ℕ} (c : RealtimeUdpChannel) (held bytes : List ℕ) (h : Ready n c held) where
  pub used : length (datagrams c) + length held + length (free c.send_queue) ≡ n
  unfolding datagrams
  used =
      omega (arith, h.owns.split.total, length-map (datagram c.send_queue) (pending c.send_queue))

  pub full :
      (k : ℕ)
      → length (datagrams c) + length held + k ≡ n
      → k ≡ 0
      → (length (datagrams c) + length held == n) ≡ true
  full k e z = ground arith

  pub room :
      (k : ℕ)
      → length (datagrams c) + length held + k ≡ n
      → 0 < k
      → (length (datagrams c) + length held == n) ≡ false
  room k e z = ground arith

  Promised : FleetErr × RealtimeUdpChannel → Type 0
  Promised r = ((r.0, datagrams r.1) ≡ send_spec n c (length held) bytes) × Ready n r.1 held

  send_running :
      (slots : List ℕ)
      → free c.send_queue ≡ slots
      → ltb 512 (length bytes) ≡ false
      → c.stopped ≡ false
      → Promised (send c bytes)
  unfolding Promised send_spec datagrams
  send_running [] e l r =
      let sent = send_none c held bytes h r (ground arith) e in
      (
        ap₂ pair sent.0 sent.2
            ∙ rw (l, send_spec, r, full (length (free c.send_queue)) used (ap length e)) refl,
        sent.1,
      )
  send_running (slot ∷ rest) e l r =
      let sent = send_some c held bytes h r (ground arith) slot rest e in
      (
        ap₂ pair sent.0 sent.2
            ∙ rw
                (
                  l,
                  send_spec,
                  r,
                  room (length (free c.send_queue)) used (omega (arith, ap length e)),
                )
                refl,
        sent.1,
      )

  -- `send` keeps the channel ready, and does what a bounded queue of datagrams does: it refuses more
  -- than 512 bytes, then a stopped channel, then a queue in which the pending datagrams and the
  -- packets that callers hold take all slots, each time with the datagrams as they were, and else
  -- the bytes become the last datagram.
  pub send_lem :
      (((send c bytes).0, datagrams (send c bytes).1) ≡ send_spec n c (length held) bytes)
      × Ready n (send c bytes).1 held
  unfolding Promised send_spec
  send_lem = elim (Bool-cases (ltb 512 (length bytes))) [
    | inl large ↦ subst Promised (sym (send_large c bytes large)) (rw (large, send_spec) refl, h)
    | inr small ↦ elim (Bool-cases c.stopped) [
      | inl stopped ↦
          subst Promised (sym (send_stopped c bytes small stopped))
            (rw (small, send_spec, stopped) refl, h)
      | inr running ↦ send_running (free c.send_queue) refl small running
    ]
  ]
