-- ===== src/MotorPvtControl.antt =====
-- pvt/motor_pvt_control.cc: the control loop of the PVT tool. What the loop sees of the world in one
-- round is a `Round`; a time is a number of nanoseconds, and the clock does not run backwards. What
-- only goes to the log is left out.
pub mod Counting
pub mod Rounds
pub mod Loop
pub mod Session
pub mod Safe
pub mod Expected
pub mod Cleanup
pub mod Run
pub mod Late
mod Tests
use Prim.Native.Nat.{max}
use servo_fleet.Prelude.{
  ℕ, ◌+◌, ◌-◌, ◌%◌, ◌^◌, ltb, leb, ◌&&◌, not, if◌then◌else◌, Bool, true, false, List, [], ◌∷◌, ◌++◌,
  Option, none, some,
}
use servo_fleet.Words.{add_size}
use servo_fleet.Error.{FleetErr, is_error}
use servo_fleet.Feedback.{MotorErr, PidGains}
use servo_fleet.Floats.{Floats, literal, neg_literal}
use servo_fleet.Device.{PvtFeedbackSnapshot, snapshot_fresh}
use servo_fleet.Commands.{PvtCommand}

abbrev pub command_period : ℕ
command_period = 2500000

abbrev pub feedback_max_age : ℕ
feedback_max_age = 2000000

abbrev pub max_consecutive_stale_feedback : ℕ
max_consecutive_stale_feedback = 3

pub record PvtTarget (F : Type 0) : Type 0 where
  pub position_r : F
  pub velocity_radps : F

pub record PvtLoopStats : Type 0 where
  pub cycles : ℕ
  pub commands_sent : ℕ
  pub stale_feedback : ℕ
  pub rejected_feedback : ℕ
  pub command_errors : ℕ
  pub deadline_misses : ℕ
  pub max_wakeup_lateness : ℕ

abbrev pub no_stats : PvtLoopStats
no_stats = record {
  cycles = 0;
  commands_sent = 0;
  stale_feedback = 0;
  rejected_feedback = 0;
  command_errors = 0;
  deadline_misses = 0;
  max_wakeup_lateness = 0;
}

-- `operator+=`
unfoldable pub add_stats : PvtLoopStats → PvtLoopStats → PvtLoopStats
add_stats a b = record {
  cycles = add_size a.cycles b.cycles;
  commands_sent = add_size a.commands_sent b.commands_sent;
  stale_feedback = add_size a.stale_feedback b.stale_feedback;
  rejected_feedback = add_size a.rejected_feedback b.rejected_feedback;
  command_errors = add_size a.command_errors b.command_errors;
  deadline_misses = add_size a.deadline_misses b.deadline_misses;
  max_wakeup_lateness = max a.max_wakeup_lateness b.max_wakeup_lateness;
}

-- `++` of a `uint64_t`
abbrev pub counted : ℕ → ℕ
counted n = add_size n 1

abbrev pub counted_if : Bool → ℕ → ℕ
counted_if b n = if b then counted n else n

-- One round: the time after the sleep, the feedback, what `command` answers if it is called, and the
-- time at the end.
pub record Round (F : Type 0) : Type 0 where
  pub woke_at : ℕ
  pub snapshot : PvtFeedbackSnapshot F
  pub error : FleetErr
  pub finished_at : ℕ

pub record LoopState : Type 0 where
  pub stats : PvtLoopStats
  pub next_time : ℕ
  pub consecutive_stale_feedback : ℕ

abbrev pub is_none : MotorErr → Bool
is_none error = elim error [ MotorErr.none ↦ true | _ ↦ false ]

-- The start of a round, up to the feedback.
unfoldable pub woken : ℕ → LoopState → LoopState
woken woke_at s =
    let next_time = s.next_time + command_period in
    record s {
      next_time = next_time;
      stats = record s.stats {
        cycles = counted s.stats.cycles;
        max_wakeup_lateness =
            if ltb next_time woke_at
            then max s.stats.max_wakeup_lateness (woke_at - next_time)
            else s.stats.max_wakeup_lateness;
      };
    }

module _ {F : Type 0} where
  -- A round gives whether the loop goes on, and the commands that were sent. The first is one without
  -- fresh feedback: `return false` or `continue`.
  unfoldable pub stale_round : Bool → LoopState → Bool × LoopState × List (PvtCommand F)
  stale_round deadline_missed s =
      let stale = counted s.consecutive_stale_feedback in
      (
        not (leb max_consecutive_stale_feedback stale),
        record s {
          stats = record s.stats {
            stale_feedback = counted s.stats.stale_feedback;
            deadline_misses = counted_if deadline_missed s.stats.deadline_misses;
          };
          consecutive_stale_feedback = stale;
        },
        [],
      )

  unfoldable pub rejected_round : Bool → LoopState → Bool × LoopState × List (PvtCommand F)
  rejected_round deadline_missed s = (
    true,
    record s {
      stats = record s.stats {
        rejected_feedback = counted s.stats.rejected_feedback;
        deadline_misses = counted_if deadline_missed s.stats.deadline_misses;
      };
    },
    [],
  )

  unfoldable pub driven_round :
      Bool → ℕ → LoopState → Bool × List (PvtCommand F) → Bool × LoopState × List (PvtCommand F)
  driven_round deadline_missed finished_at s (false, sent) = (
    false,
    record s { stats = record s.stats { command_errors = counted s.stats.command_errors } },
    sent,
  )
  driven_round deadline_missed finished_at s (true, sent) =
      let missed =
        if leb (s.next_time + command_period) finished_at then true else deadline_missed in
      (
        true,
        record s {
          stats = record s.stats {
            commands_sent = counted s.stats.commands_sent;
            deadline_misses = counted_if missed s.stats.deadline_misses;
          };
        },
        sent,
      )

  -- The result of the loop with the commands that were sent before.
  abbrev pub sent_first :
      List (PvtCommand F)
      → Option (Bool × LoopState × List (PvtCommand F))
      → Option (Bool × LoopState × List (PvtCommand F))
  sent_first sent none = none
  sent_first sent (some (finished, s, more)) = some (finished, s, sent ++ more)

  abbrev pub go_on :
      (LoopState → Option (Bool × LoopState × List (PvtCommand F)))
      → Bool × LoopState × List (PvtCommand F)
      → Option (Bool × LoopState × List (PvtCommand F))
  go_on rest (false, s, sent) = some (false, s, sent)
  go_on rest (true, s, sent) = sent_first sent (rest s)

  abbrev pub with_total :
      PvtLoopStats
      → Option (Bool × LoopState × List (PvtCommand F))
      → Option (Bool × PvtLoopStats × List (PvtCommand F))
  with_total total none = none
  with_total total (some (finished, s, sent)) = some (finished, add_stats total s.stats, sent)

module _ {F : Type 0} ⦃fl : Floats F⦄ where
  unfoldable pub valid_pvt_position : F → Bool
  valid_pvt_position position_r =
      fl.isfinite (fl.widen position_r)
      && not (fl.dlt (fl.widen position_r) (fl.widen (fl.lit (neg_literal 125 1))))
      && not (fl.dlt (fl.widen (fl.lit (literal 125 1))) (fl.widen position_r))

  abbrev pub order : ℕ → PvtTarget F → PvtCommand F
  order device_id target = record {
    device_id = device_id;
    gains = record {
      kp = fl.lit (literal 18 0);
      kd = fl.lit (literal 4 1);
      ki = fl.lit (literal 0 0);
    };
    position_r = target.position_r;
    velocity_radps = target.velocity_radps;
    torque_ff_nm = fl.lit (literal 0 0);
  }

  -- The result, and the commands that `command` was called with; `error` is its answer.
  unfoldable pub send_pvt : ℕ → FleetErr → PvtTarget F → Bool × List (PvtCommand F)
  send_pvt device_id error target =
      if valid_pvt_position target.position_r
      then (not (is_error error), order device_id target ∷ [])
      else (false, [])

  module _ (device_id start : ℕ) (target_at : ℕ → PvtTarget F) where
    unfoldable pub run_round : Round F → LoopState → Bool × LoopState × List (PvtCommand F)
    unfolding woken stale_round rejected_round driven_round send_pvt
    run_round r s =
        let s' = woken r.woke_at s in
        let deadline_missed = leb (s'.next_time + command_period) r.woke_at in
        let fresh_state = record s' { consecutive_stale_feedback = 0 } in
        if not (snapshot_fresh r.snapshot r.woke_at feedback_max_age)
        then stale_round deadline_missed s'
        else if not (is_none r.snapshot.error.value)
        then rejected_round deadline_missed fresh_state
        else driven_round deadline_missed r.finished_at fresh_state
            (send_pvt device_id r.error (target_at (r.woke_at - start)))

    -- The `while` loop, to the time `end`; `none` if it needs more rounds than there are.
    unfoldable pub run_rounds :
        ℕ → List (Round F) → LoopState → Option (Bool × LoopState × List (PvtCommand F))
    unfolding run_round
    run_rounds end [] s =
        if leb (s.next_time + command_period) end then none else some (true, s, [])
    run_rounds end (r ∷ rounds) s =
        if leb (s.next_time + command_period) end
        then go_on (λ s'. run_rounds end rounds s') (run_round r s)
        else some (true, s, [])

    -- The state before the first round, in which one command was sent.
    abbrev pub seeded : LoopState
    seeded = record {
      stats = record no_stats { commands_sent = 1 };
      next_time = start;
      consecutive_stale_feedback = 0;
    }

    abbrev pub from_seed :
        ℕ
        → List (Round F)
        → PvtLoopStats
        → Bool × List (PvtCommand F)
        → Option (Bool × PvtLoopStats × List (PvtCommand F))
    from_seed run_duration rounds total (false, sent) =
        some (false, add_stats total (record no_stats { command_errors = 1 }), sent)
    from_seed run_duration rounds total (true, sent) =
        with_total total (sent_first sent (run_rounds (start + run_duration) rounds seeded))

    -- `first_error` is what `command` answers to the first command.
    unfoldable pub run_stable_pvt_loop :
        ℕ
        → FleetErr
        → List (Round F)
        → PvtLoopStats
        → Option (Bool × PvtLoopStats × List (PvtCommand F))
    unfolding run_rounds send_pvt
    run_stable_pvt_loop run_duration first_error rounds total =
        from_seed run_duration rounds total (send_pvt device_id first_error (target_at 0))
