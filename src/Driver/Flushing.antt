-- ===== src/Driver/Flushing.antt =====
-- A flush sends the frames of a batch as one packet, and empties it.
use servo_fleet.Prelude.{
  ℕ, zero, suc, ap, subst, sym, ◌∙◌, length-take, ltb, not, ◌||◌, ◌+◌, ◌≤◌, ◌<◌, ◌==◌, ◌≡◌, refl,
  arith, List, [], ◌∷◌, ◌++◌, length, take, set, true, false, Bool-cases, inl, inr, if◌then◌else◌,
}
use servo_fleet.Error.{FleetErr}
use servo_fleet.CanFrame.{CanFrame, valid}
use servo_fleet.MotorCodec.{all_valid}
use servo_fleet.MotorCodec.Wire.{packet, AreFrames}
use servo_fleet.Channel.Realtime.{RealtimeUdpChannel}
use servo_fleet.Channel.Realtime.Packets.{datagrams}
use servo_fleet.Channel.Realtime.Queueing.{Ready}
use servo_fleet.Driver.{send_frames}
use servo_fleet.Driver.Sending.{send_frames_spec, send_frames_lem}
use servo_fleet.Driver.Batch.{BatchCommands, Outcome, flush, sent}

abbrev pub pending : BatchCommands → List CanFrame
pending b = take b.frame_count b.frames

-- There is room for one frame, and the frames taken can be sent.
pub record IsBatch (b : BatchCommands) : Type 0 where
  pub array : length b.frames ≡ 32
  pub room : b.frame_count < 32
  pub frames_are : AreFrames (pending b)
  pub are_valid : all_valid (pending b) ≡ true

pub take-set :
    {A : Type 0} (xs : List A) (n : ℕ) (a : A)
    → n < length xs
    → take (suc n) (set xs n a) ≡ take n xs ++ (a ∷ [])
take-set [] n a h = absurd (omega arith)
take-set (x ∷ xs) zero a h = refl
take-set (x ∷ xs) (suc n) a h = ap (◌∷◌ x) (take-set xs n a (omega arith))

pub take-set_past : {A : Type 0} (xs : List A) (n : ℕ) (a : A) → take n (set xs n a) ≡ take n xs
take-set_past xs zero a = refl
take-set_past [] (suc n) a = refl
take-set_past (x ∷ xs) (suc n) a = ap (◌∷◌ x) (take-set_past xs n a)

pub all_valid-append :
    (xs : List CanFrame) (f : CanFrame)
    → all_valid xs ≡ true
    → valid f ≡ true
    → all_valid (xs ++ (f ∷ [])) ≡ true
unfolding all_valid
all_valid-append [] f h k = ground arith
all_valid-append (x ∷ xs) f h k = ground (arith, all_valid-append xs f)

-- What sending `fs` promises on a channel whose callers hold `held` of its `slots` packets.
abbrev pub flush_spec : ℕ → List CanFrame → RealtimeUdpChannel → ℕ → FleetErr × List (List ℕ)
flush_spec slots [] c held = (FleetErr.ok, datagrams c)
flush_spec slots (f ∷ fs) c held =
    if c.stopped
    then (FleetErr.cancelled, datagrams c)
    else if length (datagrams c) + held == slots
    then (FleetErr.busy, datagrams c)
    else (FleetErr.ok, datagrams c ++ (packet 1 (f ∷ fs) ∷ []))

-- The error, the frames that wait in the batch, and the datagrams of the channel.
abbrev pub seen : Outcome → FleetErr × List CanFrame × List (List ℕ)
seen (e, b, c) = (e, pending b, datagrams c)

-- A call whose outcome is seen as `spec`, and which keeps the batch and the channel in order.
abbrev pub Does : ℕ → List ℕ → FleetErr × List CanFrame × List (List ℕ) → Outcome → Type 0
Does slots held spec out = (seen out ≡ spec) × IsBatch out.1 × Ready slots out.2 held

abbrev pub emptied : FleetErr × List (List ℕ) → FleetErr × List CanFrame × List (List ℕ)
emptied (e, ds) = (e, [], ds)

spec-pending :
    (slots : ℕ) (c : RealtimeUdpChannel) (held : ℕ) (fs : List CanFrame)
    → length fs ≤ 32
    → all_valid fs ≡ true
    → send_frames_spec slots c held fs ≡ flush_spec slots fs c held
unfolding send_frames_spec
spec-pending slots c held [] le v = refl
spec-pending slots c held (f ∷ fs) le v =
    let fine : (ltb 32 (length (f ∷ fs)) || not (all_valid (f ∷ fs))) ≡ false = ground arith in
    rw fine refl

pub emptied-IsBatch : (b : BatchCommands) → length b.frames ≡ 32 → b.frame_count ≡ 0 → IsBatch b
unfolding all_valid
emptied-IsBatch b h e = record {
  array = h;
  room = omega arith;
  frames_are = subst (λ n. AreFrames (take n b.frames)) (sym e) (omega arith);
  are_valid = ap (λ n. all_valid (take n b.frames)) e;
}

module _ {slots : ℕ} (b : BatchCommands) (c : RealtimeUdpChannel) (held : List ℕ)
    (h32 : length b.frames ≡ 32) (ready : Ready slots c held) where
  flush_none :
      b.frame_count ≡ 0
      → Does slots held (emptied (flush_spec slots (pending b) c (length held))) (FleetErr.ok, b, c)
  flush_none e = (
    ap (λ n. (FleetErr.ok, take n b.frames, datagrams c)) e
        ∙ sym (ap (λ n. emptied (flush_spec slots (take n b.frames) c (length held))) e),
    emptied-IsBatch b h32 e,
    ready,
  )

  flush_some :
      b.frame_count ≤ 32
      → AreFrames (pending b)
      → all_valid (pending b) ≡ true
      → Does slots held
          (emptied (flush_spec slots (pending b) c (length held)))
          (sent b (send_frames c (pending b)))
  flush_some le hf hv =
      let done = send_frames_lem c held (pending b) ready hf in
      let few : length (pending b) ≤ 32 = omega (arith, length-take b.frame_count b.frames) in
      (
        ap emptied (done.0 ∙ spec-pending slots c (length held) (pending b) few hv),
        emptied-IsBatch (record b { frame_count = 0 }) h32 refl,
        done.1,
      )

  pub flush_any :
      b.frame_count ≤ 32
      → AreFrames (pending b)
      → all_valid (pending b) ≡ true
      → Does slots held (emptied (flush_spec slots (pending b) c (length held))) (flush b c)
  unfolding flush
  flush_any le hf hv = elim (Bool-cases (b.frame_count == 0)) [
    | inl e ↦ rw (flush, e) (flush_none (ground arith))
    | inr e ↦ rw (flush, e) (flush_some le hf hv)
  ]
