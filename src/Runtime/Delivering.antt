-- ===== src/Runtime/Delivering.antt =====
-- What a call of `send_motor_commands` leaves of every driver.
use servo_fleet.Prelude.{
  ℕ, zero, suc, ◌+◌, ◌==◌, ◌≡◌, refl, ap, ◌∙◌, sym, subst, arith, Bool, true, false, if◌then◌else◌,
  List, [], ◌∷◌, ◌++◌, append-nil, append_assoc, length, map, get_elem?, Option, none, some, All,
  leb,
}
use servo_fleet.Error.{FleetErr, is_error}
use servo_fleet.CanFrame.{CanFrame}
use servo_fleet.Floats.{Floats, IsFloats}
use servo_fleet.Commands.{Command}
use servo_fleet.CanCodec.Wire.{IsCommand}
use servo_fleet.Channel.Realtime.{RealtimeUdpChannel}
use servo_fleet.Channel.Realtime.Packets.{datagrams}
use servo_fleet.Channel.Realtime.Queueing.{Ready}
use servo_fleet.MotorCodec.Wire.{packet}
use servo_fleet.Driver.Batch.{BatchCommands, new_batch, push, flush}
use servo_fleet.Driver.Batching.{pushed_spec}
use servo_fleet.Driver.Flushing.{IsBatch, pending, emptied, flush_spec, emptied-IsBatch}
use servo_fleet.Driver.Commanding.{IsAddress, flush_lem, push_spec, push_lem}
use servo_fleet.Runtime.Binding.{DeviceBinding}
use servo_fleet.Runtime.Commanding.{
  Lane, command_device_id, lane_after, last_error, flush_all, push_at, push_bound, push_all,
  send_motor_commands,
}

-- `out` is `xs` with something behind it.
pub record Extends (xs out : List (List ℕ)) : Type 0 where
  pub more : List (List ℕ)
  pub joined : out ≡ xs ++ more

pub same-Extends : (xs : List (List ℕ)) → Extends xs xs
same-Extends xs = record { more = []; joined = sym (append-nil xs) }

Extends-trans : (xs ys zs : List (List ℕ)) → Extends xs ys → Extends ys zs → Extends xs zs
Extends-trans xs ys zs h k = record {
  more = h.more ++ k.more;
  joined = k.joined ∙ ap (λ l. l ++ k.more) h.joined ∙ append_assoc xs h.more k.more;
}

if-Extends :
    (b : Bool) (xs : List (List ℕ)) (p q : FleetErr × List (List ℕ))
    → Extends xs p.1
    → Extends xs q.1
    → Extends xs (if b then p else q).1
if-Extends true xs p q h k = h
if-Extends false xs p q h k = k

flush_spec-Extends :
    (slots : ℕ) (fs : List CanFrame) (c : RealtimeUdpChannel) (held : ℕ)
    → Extends (datagrams c) (flush_spec slots fs c held).1
flush_spec-Extends slots [] c held = same-Extends (datagrams c)
flush_spec-Extends slots (f ∷ fs) c held =
    if-Extends c.stopped (datagrams c) _ _ (same-Extends (datagrams c)) (
      if-Extends (length (datagrams c) + held == slots) (datagrams c) _ _
        (same-Extends (datagrams c)) (record { more = packet 1 (f ∷ fs) ∷ []; joined = refl }))

emptied-Extends :
    (xs : List (List ℕ)) (p : FleetErr × List (List ℕ)) → Extends xs p.1 → Extends xs (emptied p).2
emptied-Extends xs (e, ds) h = h

if-Extends_seen :
    (b : Bool) (xs : List (List ℕ)) (p q : FleetErr × List CanFrame × List (List ℕ))
    → Extends xs p.2
    → Extends xs q.2
    → Extends xs (if b then p else q).2
if-Extends_seen true xs p q h k = h
if-Extends_seen false xs p q h k = k

pushed_spec-Extends :
    (slots : ℕ) (b : BatchCommands) (c : RealtimeUdpChannel) (held : ℕ) (out : FleetErr × CanFrame)
    → Extends (datagrams c) (pushed_spec slots b c held out).2
unfolding pushed_spec
pushed_spec-Extends slots b c held (err, frame) =
    if-Extends_seen (is_error err) (datagrams c) _ _ (same-Extends (datagrams c)) (
      if-Extends_seen (b.frame_count == 31) (datagrams c) _ _
        (emptied-Extends (datagrams c) (flush_spec slots (pending b ++ (frame ∷ [])) c held)
          (flush_spec-Extends slots (pending b ++ (frame ∷ [])) c held))
        (same-Extends (datagrams c)))

-- A driver between two calls.
pub record InOrder (slots : ℕ) (l : Lane) : Type 0 where
  pub addresses : All IsAddress l.devices
  pub batch : IsBatch l.batch
  pub ready : Ready slots l.channel []

-- The lanes `ms` are in order, for channels of `ns` slots, and have at least the datagrams of `ls`.
pub data Goes : List ℕ → List Lane → List Lane → Type 0 where
  done : Goes [] [] []
  next :
      (n : ℕ) (l m : Lane) {ns : List ℕ} {ls ms : List Lane}
      → InOrder n m
      → Extends (datagrams l.channel) (datagrams m.channel)
      → Goes ns ls ms
      → Goes (n ∷ ns) (l ∷ ls) (m ∷ ms)

module _ (F : Type 0) ⦃fl : Floats F⦄ ⦃law : IsFloats F⦄ where
  push-Extends :
      (n : ℕ) (l : Lane) (device_slot : ℕ) (command : Command F fl.Double)
      → IsCommand command
      → InOrder n l
      → let m = (lane_after l (push F l.devices l.batch l.channel device_slot command)).1 in
        InOrder n m × Extends (datagrams l.channel) (datagrams m.channel)
  unfolding push_spec
  push-Extends n l device_slot command typed h =
      let does =
        push_lem F l.devices l.batch l.channel [] device_slot command h.addresses typed h.batch
          h.ready in
      (
        record { addresses = h.addresses; batch = does.1; ready = does.2 },
        subst (Extends (datagrams l.channel)) (sym (ap (λ s. s.2) does.0)) (
            if-Extends_seen (leb (length l.devices) device_slot) (datagrams l.channel) _ _
              (same-Extends (datagrams l.channel)) (pushed_spec-Extends n l.batch l.channel 0 _)),
      )

  push_at-Goes :
      (driver_slot device_slot : ℕ) (command : Command F fl.Double) {ns : List ℕ}
      {ls ms : List Lane}
      → IsCommand command
      → Goes ns ls ms
      → Goes ns ls (push_at F driver_slot device_slot command ms).1
  unfolding push_at
  push_at-Goes driver_slot device_slot command typed done = done
  push_at-Goes zero device_slot command typed (next n l m h e g) =
      let (h2, e2) = push-Extends n m device_slot command typed h in
      next n l _ h2 (Extends-trans _ _ _ e e2) g
  push_at-Goes (suc driver_slot) device_slot command typed (next n l m h e g) =
      next n l m h e (push_at-Goes driver_slot device_slot command typed g)

  push_bound-Goes :
      (binding : Option DeviceBinding) (command : Command F fl.Double) {ns : List ℕ}
      {ls ms : List Lane}
      → IsCommand command
      → Goes ns ls ms
      → Goes ns ls (push_bound F binding command ms).1
  unfolding push_bound
  push_bound-Goes none command typed g = g
  push_bound-Goes (some binding) command typed g =
      push_at-Goes binding.driver_slot binding.device_slot command typed g

  push_all-Goes :
      (bindings : List DeviceBinding) (commands : List (Command F fl.Double)) (error : FleetErr)
      {ns : List ℕ} {ls ms : List Lane}
      → All IsCommand commands
      → Goes ns ls ms
      → Goes ns ls (push_all F bindings commands error ms).1
  unfolding push_all
  push_all-Goes bindings [] error typed g = g
  push_all-Goes bindings (command ∷ commands) error typed g =
      push_all-Goes bindings commands _ typed.1
        (push_bound-Goes (get_elem? bindings (command_device_id command)) command typed.0 g)

flush-Extends :
    (n : ℕ) (l : Lane)
    → InOrder n l
    → let m = (lane_after l (flush l.batch l.channel)).1 in
      InOrder n m × Extends (datagrams l.channel) (datagrams m.channel) × (pending m.batch ≡ [])
flush-Extends n l h =
    let does = flush_lem l.batch l.channel [] h.batch h.ready in
    (
      record { addresses = h.addresses; batch = does.1; ready = does.2 },
      subst (Extends (datagrams l.channel)) (sym (ap (λ s. s.2) does.0)) (
          emptied-Extends (datagrams l.channel) (flush_spec n (pending l.batch) l.channel 0)
            (flush_spec-Extends n (pending l.batch) l.channel 0)),
      ap (λ s. s.1) does.0,
    )

-- No frame waits in any batch.
abbrev pub NoneWaits : List Lane → Type 0
NoneWaits = All (λ (l : Lane). pending l.batch ≡ [])

flush_all-Goes :
    (error : FleetErr) {ns : List ℕ} {ls ms : List Lane}
    → Goes ns ls ms
    → Goes ns ls (flush_all error ms).1 × NoneWaits (flush_all error ms).1
unfolding flush_all
flush_all-Goes error done = (done, omega arith)
flush_all-Goes error (next n l m h e g) =
    let (h2, e2, waits) = flush-Extends n m h in
    let rest = flush_all-Goes (last_error error (lane_after m (flush m.batch m.channel)).0) g in
    (next n l _ h2 (Extends-trans _ _ _ e e2) rest.0, (waits, rest.1))

fresh-Goes :
    {ns : List ℕ} {ls ms : List Lane}
    → Goes ns ls ms
    → Goes ns ls (map (λ (l : Lane). record l { batch = new_batch }) ms)
fresh-Goes done = done
fresh-Goes (next n l m h e g) =
    next n l _
      (record {
        addresses = h.addresses;
        batch = emptied-IsBatch new_batch refl refl;
        ready = h.ready;
      })
      e (fresh-Goes g)

-- `send_motor_commands`, of commands within their types and to drivers that are in order: whatever
-- the commands, and whichever of them fail, every driver stays in order, each channel has its
-- pending datagrams as they were with at most new ones behind them, and no frame waits in a batch
-- when the call returns.
pub send_motor_commands-Goes :
    (F : Type 0) ⦃fl : Floats F⦄ ⦃law : IsFloats F⦄ (bindings : List DeviceBinding)
    (commands : List (Command F fl.Double)) (slots : List ℕ) (lanes : List Lane)
    → All IsCommand commands
    → Goes slots lanes lanes
    → Goes slots lanes (send_motor_commands F bindings commands lanes).1
      × NoneWaits (send_motor_commands F bindings commands lanes).1
unfolding send_motor_commands
send_motor_commands-Goes F bindings commands slots lanes typed g =
    flush_all-Goes _ (push_all-Goes F bindings commands FleetErr.ok typed (fresh-Goes g))
