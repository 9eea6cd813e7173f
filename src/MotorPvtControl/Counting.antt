-- ===== src/MotorPvtControl/Counting.antt =====
-- What one round of the control loop does to its counters, and which rounds reach a command.
use servo_fleet.Prelude.{
  ℕ, zero, suc, ◌+◌, ◌-◌, ◌^◌, ◌<◌, ◌≡◌, arith, ltb, not, ◌&&◌, if◌then◌else◌, Bool, true, List, [],
  ◌∷◌, ◌++◌, length,
}
use servo_fleet.Error.{is_error}
use servo_fleet.Floats.{Floats}
use servo_fleet.Device.{snapshot_fresh}
use servo_fleet.Commands.{PvtCommand}
use servo_fleet.MotorPvtControl.{
  PvtTarget, Round, LoopState, PvtLoopStats, command_period, feedback_max_age, is_none, send_pvt,
  order, valid_pvt_position, woken, stale_round, rejected_round, driven_round, run_round,
}

abbrev pub is_stale : {F : Type 0} → Round F → Bool
is_stale r = not (snapshot_fresh r.snapshot r.woke_at feedback_max_age)

-- Fresh feedback, in which the motor reports an error.
abbrev pub is_rejected : {F : Type 0} → Round F → Bool
is_rejected r = not (is_stale r) && not (is_none r.snapshot.error.value)

abbrev pub is_usable : {F : Type 0} → Round F → Bool
is_usable r = not (is_stale r) && is_none r.snapshot.error.value

abbrev pub one_if : Bool → ℕ
one_if b = if b then 1 else 0

abbrev pub count : {A : Type 0} → (A → Bool) → List A → ℕ
count p [] = 0
count p (x ∷ xs) = one_if (p x) + count p xs

-- How many stale rounds in a row there are after a round, if there were `c` before it.
abbrev pub stale_after : {F : Type 0} → ℕ → Round F → ℕ
stale_after c r = if is_stale r then c + 1 else 0

module _ {F : Type 0} ⦃fl : Floats F⦄ (device_id start : ℕ) (target_at : ℕ → PvtTarget F) where
  -- The target for the time at which the round woke up.
  abbrev pub target_of : Round F → PvtTarget F
  target_of r = target_at (r.woke_at - start)

  -- The order of a round: only a usable round has one, and only for a position in range.
  abbrev pub order_of : Round F → List (PvtCommand F)
  order_of r =
      if is_usable r && valid_pvt_position (target_of r).position_r
      then order device_id (target_of r) ∷ []
      else []

  abbrev pub orders_of : List (Round F) → List (PvtCommand F)
  orders_of [] = []
  orders_of (r ∷ rounds) = order_of r ++ orders_of rounds

  abbrev pub is_answered : Round F → Bool
  is_answered r =
      is_usable r && valid_pvt_position (target_of r).position_r && not (is_error r.error)

  -- Whether the loop goes on after a round: after the third stale round in a row, and after an order
  -- that was refused, it does not.
  abbrev pub keeps_on : ℕ → Round F → Bool
  keeps_on c r = if is_usable r then is_answered r else ltb (stale_after c r) 3

  -- The rounds that run, if the time is enough for `time` of them.
  abbrev pub executed : (time : ℕ) → ℕ → List (Round F) → List (Round F)
  executed zero c rounds = []
  executed (suc time) c [] = []
  executed (suc time) c (r ∷ rounds) =
      let rest = executed time (stale_after c r) rounds in r ∷ (if keeps_on c r then rest else [])

  -- Whether none of them ends the loop.
  abbrev pub completes : (time : ℕ) → ℕ → List (Round F) → Bool
  completes zero c rounds = true
  completes (suc time) c [] = true
  completes (suc time) c (r ∷ rounds) =
      let rest = completes time (stale_after c r) rounds in keeps_on c r && rest

  -- The counters of `after_it`, which are those of `before` with these rounds.
  pub record Counts (before after_it : PvtLoopStats) (rounds : List (Round F)) : Type 0 where
    pub cycles : after_it.cycles ≡ before.cycles + length rounds
    pub stale : after_it.stale_feedback ≡ before.stale_feedback + count is_stale rounds
    pub rejected : after_it.rejected_feedback ≡ before.rejected_feedback + count is_rejected rounds
    pub commands : after_it.commands_sent ≡ before.commands_sent + count (λ r. is_answered r) rounds
    pub errors :
        after_it.command_errors + after_it.commands_sent
        ≡ before.command_errors + before.commands_sent + count is_usable rounds

  -- The counters can count `n` more.
  pub record Room (n : ℕ) (s : LoopState) : Type 0 where
    pub cycles : s.stats.cycles + n < 2 ^ 64
    pub stale : s.stats.stale_feedback + n < 2 ^ 64
    pub rejected : s.stats.rejected_feedback + n < 2 ^ 64
    pub commands : s.stats.commands_sent + n < 2 ^ 64
    pub errors : s.stats.command_errors + n < 2 ^ 64
    pub consecutive : s.consecutive_stale_feedback < 3

  pub round_lem :
      (r : Round F) (s : LoopState)
      → Room 1 s
      → let (goes_on, s', sent) = run_round device_id start target_at r s in
        (goes_on ≡ keeps_on s.consecutive_stale_feedback r)
        × (sent ≡ order_of r)
        × Counts s.stats s'.stats (r ∷ [])
        × (s'.next_time ≡ s.next_time + command_period)
        × (goes_on ≡ true
            → s'.consecutive_stale_feedback ≡ stale_after s.consecutive_stale_feedback r)
  unfolding run_round woken stale_round rejected_round driven_round send_pvt
  round_lem r s h = (ground arith, ground arith, ground arith, ground arith, ground arith)

  pub Counts-cons :
      (a b c : PvtLoopStats) (r : Round F) (rounds : List (Round F))
      → Counts a b (r ∷ [])
      → Counts b c rounds
      → Counts a c (r ∷ rounds)
  Counts-cons a b c r rounds h k = omega arith

  pub Counts-nil : (a : PvtLoopStats) → Counts a a []
  Counts-nil a = omega arith

  -- A round counts at most one of each.
  pub Room-next :
      (n : ℕ) (r : Round F) (s s' : LoopState)
      → Room (suc n) s
      → Counts s.stats s'.stats (r ∷ [])
      → s'.consecutive_stale_feedback < 3
      → Room n s'
  Room-next n r s s' h k few = record {
    cycles = ground arith;
    stale = ground arith;
    rejected = ground arith;
    commands = ground arith;
    errors = ground arith;
    consecutive = few;
  }
