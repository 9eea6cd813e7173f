-- ===== src/MotorPvtControl/Rounds.antt =====
-- What the control loop of the PVT tool does, round by round.
use servo_fleet.Prelude.{
  ℕ, zero, suc, ◌+◌, ◌*◌, ◌≤◌, ◌<◌, ◌≡◌, refl, ap, ◌∙◌, arith, Bool, true, false, Bool-cases, inl,
  inr, List, [], ◌∷◌, ◌++◌, length, Option, some, append-nil,
}
use servo_fleet.Floats.{Floats}
use servo_fleet.Commands.{PvtCommand}
use servo_fleet.MotorPvtControl.{
  PvtTarget, Round, LoopState, command_period, run_round, run_rounds, sent_first, go_on,
}
use servo_fleet.MotorPvtControl.Counting.{
  stale_after, order_of, orders_of, keeps_on, executed, completes, Counts, Room, round_lem,
  Counts-cons, Counts-nil, Room-next,
}

-- The two ways on after a round.
go_on-false :
    {F : Type 0} (rest : LoopState → Option (Bool × LoopState × List (PvtCommand F)))
    (out : Bool × LoopState × List (PvtCommand F)) (sent : List (PvtCommand F))
    → out.0 ≡ false
    → out.2 ≡ sent
    → go_on rest out ≡ some (false, out.1, sent)
go_on-false rest (false, s, l) sent e same = ap (λ x. some (false, s, x)) same
go_on-false rest (true, s, l) sent e same = cc

go_on-true :
    {F : Type 0} (rest : LoopState → Option (Bool × LoopState × List (PvtCommand F)))
    (out : Bool × LoopState × List (PvtCommand F)) (sent more : List (PvtCommand F)) (b : Bool)
    (s' : LoopState)
    → out.0 ≡ true
    → out.2 ≡ sent
    → rest out.1 ≡ some (b, s', more)
    → go_on rest out ≡ some (b, s', sent ++ more)
go_on-true rest (false, s, l) sent more b s' e same k = cc
go_on-true rest (true, s, l) sent more b s' e same k =
    ap (sent_first l) k ∙ ap (λ x. some (b, s', x ++ more)) same

module _ {F : Type 0} ⦃fl : Floats F⦄ (device_id start : ℕ) (target_at : ℕ → PvtTarget F) where
  run_step :
      (end : ℕ) (r : Round F) (rounds : List (Round F)) (s : LoopState)
      → s.next_time + command_period ≤ end
      → run_rounds device_id start target_at end (r ∷ rounds) s
        ≡ go_on
            (λ s'. run_rounds device_id start target_at end rounds s')
            (run_round device_id start target_at r s)
  unfolding run_rounds
  run_step end r rounds s h = ground arith

  run_end :
      (end : ℕ) (rounds : List (Round F)) (s : LoopState)
      → end < s.next_time + command_period
      → run_rounds device_id start target_at end rounds s ≡ some (true, s, [])
  unfolding run_rounds
  run_end end [] s h = ground arith
  run_end end (r ∷ rounds) s h = ground arith

  -- From a state with time for `time` rounds, the loop runs those of `executed`, and returns.
  abbrev Returns : ℕ → ℕ → ℕ → List (Round F) → LoopState → Type 0
  Returns end time c rounds s =
      (s' : LoopState) × (run_rounds device_id start target_at end rounds s
        ≡ some (
          completes device_id start target_at time c rounds,
          s',
          orders_of device_id start target_at (executed device_id start target_at time c rounds),
        ))
      × Counts device_id start target_at s.stats s'.stats
          (executed device_id start target_at time c rounds)

  stopped_here :
      (end time c : ℕ) (r : Round F) (rounds : List (Round F)) (s : LoopState)
      → s.next_time + command_period ≤ end
      → keeps_on device_id start target_at c r ≡ false
      → let out = run_round device_id start target_at r s in
        (out.0 ≡ false)
        → (out.2 ≡ order_of device_id start target_at r)
        → Counts device_id start target_at s.stats out.1.stats (r ∷ [])
        → Returns end (suc time) c (r ∷ rounds) s
  stopped_here end time c r rounds s room stops on sent counts =
      let out = run_round device_id start target_at r s in
      (
        out.1,
        run_step end r rounds s room ∙ go_on-false _ out _ on sent ∙ rw stops (rw append-nil refl),
        rw stops counts,
      )

  went_on :
      (end time c : ℕ) (r : Round F) (rounds : List (Round F)) (s : LoopState)
      → s.next_time + command_period ≤ end
      → keeps_on device_id start target_at c r ≡ true
      → let out = run_round device_id start target_at r s in
        (out.0 ≡ true)
        → (out.2 ≡ order_of device_id start target_at r)
        → Counts device_id start target_at s.stats out.1.stats (r ∷ [])
        → Returns end time (stale_after c r) rounds out.1
        → Returns end (suc time) c (r ∷ rounds) s
  went_on end time c r rounds s room keeps on sent counts (s', more, others) =
      let out = run_round device_id start target_at r s in
      (
        s',
        run_step end r rounds s room ∙ go_on-true _ out _ _ _ s' on sent more ∙ rw keeps refl,
        rw keeps
            (Counts-cons device_id start target_at s.stats out.1.stats s'.stats r _ counts others),
      )

  pub run_rounds_lem :
      (end time c : ℕ) (rounds : List (Round F)) (s : LoopState)
      → Room device_id start target_at time s
      → s.consecutive_stale_feedback ≡ c
      → time ≤ length rounds
      → s.next_time + time * command_period ≤ end
      → end < s.next_time + (time + 1) * command_period
      → Returns end time c rounds s
  run_rounds_lem end zero c rounds s h same few room over =
      (s, run_end end rounds s (omega arith), Counts-nil device_id start target_at s.stats)
  run_rounds_lem end (suc time) c [] s h same few room over = absurd (omega arith)
  run_rounds_lem end (suc time) c (r ∷ rounds) s h same few room over =
      let out = run_round device_id start target_at r s in
      let (on, sent, counts, later, stale) =
        round_lem device_id start target_at r s (omega arith) in
      let on' : out.0 ≡ keeps_on device_id start target_at c r =
        on ∙ ap (λ x. keeps_on device_id start target_at x r) same in
      elim (Bool-cases (keeps_on device_id start target_at c r)) [
        | inl keeps ↦
            let next : out.1.consecutive_stale_feedback ≡ stale_after c r =
              stale (on' ∙ keeps) ∙ ap (λ x. stale_after x r) same in
            let left : stale_after c r < 3 = ground arith in
            went_on end time c r rounds s (omega arith) keeps (on' ∙ keeps) sent counts (
              run_rounds_lem end time (stale_after c r) rounds out.1
                (Room-next device_id start target_at time r s out.1 h counts (omega arith)) next
                (omega arith) (omega arith) (omega arith))
        | inr stops ↦
            stopped_here end time c r rounds s (omega arith) stops (on' ∙ stops) sent counts
      ]
