-- ===== src/Driver/Batching.antt =====
-- `push` to a batch of src/driver_motor.h keeps the frames in their order.
use servo_fleet.Prelude.{
  ℕ, suc, ap, subst, sym, ◌∙◌, length-set, All-append, ◌+◌, ◌<◌, ◌==◌, ◌≡◌, arith, List, [], ◌∷◌,
  ◌++◌, length, take, set, true, false, Bool-cases, inl, inr, if◌then◌else◌,
}
use servo_fleet.Error.{FleetErr, is_error}
use servo_fleet.CanFrame.{CanFrame, IsFrame, valid}
use servo_fleet.MotorCodec.{all_valid}
use servo_fleet.MotorCodec.Wire.{AreFrames}
use servo_fleet.Channel.Realtime.{RealtimeUdpChannel}
use servo_fleet.Channel.Realtime.Packets.{datagrams}
use servo_fleet.Channel.Realtime.Queueing.{Ready}
use servo_fleet.Driver.Batch.{BatchCommands, flush, pushed}
use servo_fleet.Driver.Flushing.{
  pending, IsBatch, take-set, take-set_past, all_valid-append, flush_spec, Does, emptied, flush_any,
}

-- What a new frame does to a batch.
unfoldable pub pushed_spec :
    ℕ
    → BatchCommands
    → RealtimeUdpChannel
    → ℕ
    → FleetErr × CanFrame
    → FleetErr × List CanFrame × List (List ℕ)
pushed_spec slots b c held (err, frame) =
    let fs = pending b ++ (frame ∷ []) in
    if is_error err
    then (err, pending b, datagrams c)
    else if b.frame_count == 31
    then emptied (flush_spec slots fs c held)
    else (FleetErr.ok, fs, datagrams c)

module _ {slots : ℕ} (b : BatchCommands) (c : RealtimeUdpChannel) (held : List ℕ) (h : IsBatch b)
    (ready : Ready slots c held) (frame : CanFrame) where
  written : BatchCommands
  written = record b { frames = set b.frames b.frame_count frame }

  counted : BatchCommands
  counted = record b { frames = set b.frames b.frame_count frame; frame_count = b.frame_count + 1 }

  refused_push : (err : FleetErr) → Does slots held (err, pending b, datagrams c) (err, written, c)
  unfolding written
  refused_push err =
      let same = take-set_past b.frames b.frame_count frame in
      (
        ap (λ fs. (err, fs, datagrams c)) same,
        record {
          array = length-set b.frames b.frame_count frame ∙ h.array;
          room = h.room;
          frames_are = subst AreFrames (sym same) h.frames_are;
          are_valid = ap all_valid same ∙ h.are_valid;
        },
        ready,
      )

  counted-pending : pending counted ≡ pending b ++ (frame ∷ [])
  unfolding counted
  counted-pending =
      ap (λ n. take n (set b.frames b.frame_count frame)) {x = b.frame_count + 1}
        {y = suc b.frame_count} (omega arith)
      ∙ take-set b.frames b.frame_count frame (omega (arith, h.array, h.room))

  counted-frames : IsFrame frame → AreFrames (pending counted)
  counted-frames hf =
      subst AreFrames (sym counted-pending)
        (All-append IsFrame (pending b) (frame ∷ []) h.frames_are (hf, omega arith))

  counted-valid : valid frame ≡ true → all_valid (pending counted) ≡ true
  counted-valid hv =
      ap all_valid counted-pending ∙ all_valid-append (pending b) frame h.are_valid hv

  counted_length : length counted.frames ≡ 32
  unfolding counted
  counted_length = length-set b.frames b.frame_count frame ∙ h.array

  full_push :
      IsFrame frame
      → valid frame ≡ true
      → Does slots held
          (emptied (flush_spec slots (pending b ++ (frame ∷ [])) c (length held)))
          (flush counted c)
  full_push hf hv =
      subst
        (λ fs. Does slots held (emptied (flush_spec slots fs c (length held))) (flush counted c))
        counted-pending
        (flush_any counted c held counted_length ready (unfold counted in omega (arith, h.room))
          (counted-frames hf) (counted-valid hv))

  room_push :
      IsFrame frame
      → valid frame ≡ true
      → b.frame_count + 1 < 32
      → Does slots held
          (FleetErr.ok, pending b ++ (frame ∷ []), datagrams c)
          (FleetErr.ok, counted, c)
  room_push hf hv room = (
    ap (λ fs. (FleetErr.ok, fs, datagrams c)) counted-pending,
    record {
      array = counted_length;
      room = unfold counted in room;
      frames_are = counted-frames hf;
      are_valid = counted-valid hv;
    },
    ready,
  )

  pub pushed_lem :
      (err : FleetErr)
      → (is_error err ≡ false → IsFrame frame × (valid frame ≡ true))
      → Does slots held (pushed_spec slots b c (length held) (err, frame)) (pushed b c (err, frame))
  unfolding pushed pushed_spec written counted
  pushed_lem err good = elim (Bool-cases (is_error err)) [
    | inl bad ↦ rw (pushed, pushed_spec, bad) (refused_push err)
    | inr fine ↦
        let full : (b.frame_count + 1 == length b.frames) ≡ (b.frame_count == 31) =
          ground (arith, h.array) in
        elim (Bool-cases (b.frame_count == 31)) [
          | inl last ↦
              rw (pushed, pushed_spec, fine, full, last) (full_push (good fine).0 (good fine).1)
          | inr more ↦
              rw (pushed, pushed_spec, fine, full, more)
                (room_push (good fine).0 (good fine).1 (ground (arith, h.room)))
        ]
  ]
