-- ===== src/MotorPvtControl/Loop.antt =====
-- The whole control loop of the PVT tool.
use servo_fleet.Prelude.{
  ℕ, ◌+◌, ◌/◌, ◌^◌, ◌≤◌, ◌<◌, ◌≡◌, refl, ap, ◌∙◌, arith, not, ◌&&◌, if◌then◌else◌, Bool, true,
  false, Bool-cases, inl, inr, List, [], ◌∷◌, length, some,
}
use servo_fleet.Error.{FleetErr, is_error}
use servo_fleet.Floats.{Floats}
use servo_fleet.MotorPvtControl.{
  PvtTarget, Round, PvtLoopStats, command_period, no_stats, add_stats, send_pvt, order,
  valid_pvt_position, seeded, from_seed, with_total, sent_first, run_stable_pvt_loop,
}
use servo_fleet.MotorPvtControl.Rounds.{run_rounds_lem}
use servo_fleet.MotorPvtControl.Counting.{
  is_stale, is_rejected, is_usable, is_answered, count, executed, completes, orders_of,
}

module _ {F : Type 0} ⦃fl : Floats F⦄ (device_id start : ℕ) (target_at : ℕ → PvtTarget F) where
  -- What the loop promises, by whether its first order is sent.
  abbrev pub Promised : Bool → ℕ → FleetErr → List (Round F) → PvtLoopStats → Type 0
  Promised false run_duration first_error rounds total =
      run_stable_pvt_loop device_id start target_at run_duration first_error rounds total
      ≡ some (
        false,
        add_stats total (record no_stats { command_errors = 1 }),
        if valid_pvt_position (target_at 0).position_r
            then order device_id (target_at 0) ∷ []
            else [],
      )
  Promised true run_duration first_error rounds total =
      let ran = executed device_id start target_at (run_duration / command_period) 0 rounds in
      (stats : PvtLoopStats) × (run_stable_pvt_loop device_id start target_at run_duration
          first_error rounds total
        ≡ some (
          completes device_id start target_at (run_duration / command_period) 0 rounds,
          add_stats total stats,
          order device_id (target_at 0) ∷ orders_of device_id start target_at ran,
        ))
      × (stats.cycles ≡ length ran)
      × (stats.stale_feedback ≡ count is_stale ran)
      × (stats.rejected_feedback ≡ count is_rejected ran)
      × (stats.commands_sent ≡ 1 + count (λ r. is_answered device_id start target_at r) ran)
      × (stats.command_errors + stats.commands_sent ≡ 1 + count is_usable ran)

  -- The loop returns, if it is given as many rounds as there are periods in its time, and does this.
  -- If the first target is out of range or its order is refused, it is all that the loop does, and
  -- the result is false. Otherwise a round follows for each period, until the third round in a row
  -- whose feedback is not coherent and fresh, or an order that is not sent, and the result is whether
  -- neither came up. The orders are those of the rounds with fresh feedback without an error, each
  -- for the target at the time of waking up, if that is in range; no other round sends one. The
  -- statistics count the rounds, and those of each kind.
  pub run_stable_pvt_loop_lem :
      (run_duration : ℕ) (first_error : FleetErr) (rounds : List (Round F)) (total : PvtLoopStats)
      → run_duration < 2 ^ 63
      → run_duration / command_period ≤ length rounds
      → Promised
          (valid_pvt_position (target_at 0).position_r && not (is_error first_error))
          run_duration
          first_error
          rounds
          total
  unfolding run_stable_pvt_loop send_pvt
  run_stable_pvt_loop_lem run_duration first_error rounds total fits few =
      elim (Bool-cases (valid_pvt_position (target_at 0).position_r)) [
        | inr bad ↦
            let answer : send_pvt device_id first_error (target_at 0) ≡ (false, []) = rw bad refl in
            rw bad (
              ap (from_seed device_id start target_at run_duration rounds total) answer
              ∙ rw bad refl)
        | inl good ↦ elim (Bool-cases (is_error first_error)) [
          | inl refused ↦
              let answer : send_pvt device_id first_error (target_at 0)
                  ≡ (false, order device_id (target_at 0) ∷ []) =
                rw (good, refused) refl in
              rw (good, refused)
                (ap (from_seed device_id start target_at run_duration rounds total) answer
                  ∙ rw good refl)
          | inr sent ↦
              let (s', e, counts) =
                run_rounds_lem device_id start target_at (start + run_duration)
                  (run_duration / command_period) 0 rounds (seeded device_id start target_at)
                  (omega arith) refl few (omega arith) (omega arith) in
              let answer : send_pvt device_id first_error (target_at 0)
                  ≡ (true, order device_id (target_at 0) ∷ []) =
                rw (good, sent) refl in
              rw (good, sent)
                (
                  s'.stats,
                  ap (from_seed device_id start target_at run_duration rounds total) answer
                      ∙ ap
                          (λ o.
                            with_total total (sent_first (order device_id (target_at 0) ∷ []) o))
                          e,
                  omega (arith, counts.cycles),
                  omega (arith, counts.stale),
                  omega (arith, counts.rejected),
                  counts.commands,
                  omega (arith, counts.errors),
                )
        ]
      ]
