-- ===== src/MotorPvtControl/Safe.antt =====
-- The PVT commands that are safe for a motor, and that the control loops send no others.
use servo_fleet.Prelude.{
  ℕ, suc, length-append, ◌⊎◌, inl, inr, ◌/◌, ◌^◌, ◌≤◌, ◌<◌, ◌≡◌, refl, ap, ◌∙◌, arith,
  if◌then◌else◌, Bool, true, false, List, [], ◌∷◌, ◌++◌, length, Option, some, map, All, All-append,
  subst, sym,
}
use servo_fleet.Floats.{Floats, literal}
use servo_fleet.Commands.{Command, PvtCommand, pvt_command}
use servo_fleet.MotorPvtControl.{
  PvtTarget, PvtLoopStats, Round, command_period, valid_pvt_position, order, run_stable_pvt_loop,
}
use servo_fleet.MotorPvtControl.Counting.{orders_of, target_of}
use servo_fleet.MotorPvtControl.Loop.{Promised, run_stable_pvt_loop_lem}
use servo_fleet.MotorPvtControl.Session.{
  View, Phase, settle_duration, tune_duration, then_send, if_done, hold_position,
}

-- The clock gives as many rounds as the time of the loop has periods.
abbrev pub Enough : {F : Type 0} → ℕ → Phase F → Type 0
Enough run_duration phase = run_duration / command_period ≤ length phase.rounds

abbrev pub EnoughRounds : {F : Type 0} → View F → Type 0
EnoughRounds v =
    Enough settle_duration v.settle × Enough tune_duration v.tune × Enough settle_duration v.back

module _ {F : Type 0} ⦃fl : Floats F⦄ where
  -- To this motor, a position in range, the tool's gains, and no torque on top.
  abbrev pub IsSafe : ℕ → PvtCommand F → Type 0
  IsSafe device_id c =
      (c.device_id ≡ device_id)
      × (valid_pvt_position c.position_r ≡ true)
      × (c.gains ≡ record {
        kp = fl.lit (literal 18 0);
        kd = fl.lit (literal 4 1);
        ki = fl.lit (literal 0 0);
      })
      × (c.torque_ff_nm ≡ fl.lit (literal 0 0))

  abbrev pub is_pvt : Command F fl.Double → Bool
  is_pvt c = elim c [ pvt_command p ↦ true | _ ↦ false ]

  -- A part of the session returns, and sends only safe PVT commands: at least `n` if it passes.
  abbrev pub AllSafe : ℕ → ℕ → Option (Bool × List (Command F fl.Double)) → Type 0
  AllSafe n device_id o =
      (ok : Bool) × (driven : List (PvtCommand F)) × (o ≡ some (ok, map pvt_command driven))
      × All (IsSafe device_id) driven
      × ((ok ≡ false) ⊎ (n ≤ length driven))

  guarded-IsSafe :
      (b : Bool) (device_id : ℕ) (target : PvtTarget F)
      → (b ≡ true → valid_pvt_position target.position_r ≡ true)
      → All (IsSafe device_id) (if b then order device_id target ∷ [] else [])
  guarded-IsSafe true device_id target h = ((refl, h refl, refl, refl), tt)
  guarded-IsSafe false device_id target h = tt

  orders_of-IsSafe :
      (device_id start : ℕ) (target_at : ℕ → PvtTarget F) (rounds : List (Round F))
      → All (IsSafe device_id) (orders_of device_id start target_at rounds)
  orders_of-IsSafe device_id start target_at [] = tt
  orders_of-IsSafe device_id start target_at (r ∷ rounds) =
      All-append _ _ _
        (guarded-IsSafe _ device_id (target_of device_id start target_at r) (λ e. ground arith))
        (orders_of-IsSafe device_id start target_at rounds)

  abbrev LoopSafe : ℕ → Option (Bool × PvtLoopStats × List (PvtCommand F)) → Type 0
  LoopSafe device_id o =
      (ok : Bool) × (stats : PvtLoopStats) × (sent : List (PvtCommand F)) × (o
        ≡ some (ok, stats, sent))
      × All (IsSafe device_id) sent
      × ((ok ≡ false) ⊎ (1 ≤ length sent))

  Promised-LoopSafe :
      (b : Bool) (device_id run_duration : ℕ) (target_at : ℕ → PvtTarget F) (phase : Phase F)
      (total : PvtLoopStats)
      → (b ≡ true → valid_pvt_position (target_at 0).position_r ≡ true)
      → Promised device_id phase.start target_at b run_duration phase.first_error phase.rounds total
      → LoopSafe device_id (
          run_stable_pvt_loop device_id phase.start target_at run_duration phase.first_error
            phase.rounds total)
  Promised-LoopSafe false device_id run_duration target_at phase total h e =
      (false, _, _, e, guarded-IsSafe _ device_id (target_at 0) (λ good. good), inl refl)
  Promised-LoopSafe true device_id run_duration target_at phase total h
        (stats, e, cycles, stale, rejected, commands, errors) =
      (
        _,
        _,
        _,
        e,
        ((refl, h refl, refl, refl), orders_of-IsSafe device_id phase.start target_at _),
        inr (omega arith),
      )

  pub loop-LoopSafe :
      (device_id run_duration : ℕ) (target_at : ℕ → PvtTarget F) (phase : Phase F)
      (total : PvtLoopStats)
      → run_duration < 2 ^ 63
      → Enough run_duration phase
      → LoopSafe device_id (
          run_stable_pvt_loop device_id phase.start target_at run_duration phase.first_error
            phase.rounds total)
  loop-LoopSafe device_id run_duration target_at phase total fits few =
      Promised-LoopSafe _ device_id run_duration target_at phase total (λ e. ground arith)
        (run_stable_pvt_loop_lem device_id phase.start target_at run_duration phase.first_error
          phase.rounds total fits few)

  pub hold_position-LoopSafe :
      (device_id : ℕ) (position_r : F) (phase : Phase F) (total : PvtLoopStats)
      → Enough settle_duration phase
      → LoopSafe device_id (hold_position device_id position_r settle_duration phase total)
  unfolding hold_position
  hold_position-LoopSafe device_id position_r phase total few =
      loop-LoopSafe device_id settle_duration
        (λ elapsed. record { position_r = position_r; velocity_radps = fl.lit (literal 0 0) }) phase
        total (omega arith) few

  abbrev commands_of : List (PvtCommand F) → List (Command F fl.Double)
  commands_of = map pvt_command

  map-append :
      (xs ys : List (PvtCommand F)) → commands_of xs ++ commands_of ys ≡ commands_of (xs ++ ys)
  map-append [] ys = refl
  map-append (x ∷ xs) ys = ap (◌∷◌ (pvt_command x)) (map-append xs ys)

  grown :
      {a b : Bool} (n : ℕ) (xs ys : List (PvtCommand F))
      → (a ≡ false) ⊎ (1 ≤ length xs)
      → a ≡ true
      → (b ≡ false) ⊎ (n ≤ length ys)
      → (b ≡ false) ⊎ (suc n ≤ length (xs ++ ys))
  grown n xs ys (inl bad) good k = ground arith
  grown n xs ys (inr h) good (inl bad) = inl bad
  grown n xs ys (inr h) good (inr k) = inr (omega (arith, length-append xs ys))

  done-AllSafe :
      (n device_id : ℕ) (ok : Bool) (stats : PvtLoopStats) (sent : List (PvtCommand F))
      (rest : PvtLoopStats → Option (Bool × List (Command F fl.Double)))
      → All (IsSafe device_id) sent
      → (ok ≡ false) ⊎ (1 ≤ length sent)
      → AllSafe n device_id (rest stats)
      → AllSafe (suc n) device_id (if_done (some (ok, stats, sent)) rest)
  done-AllSafe n device_id false stats sent rest h some_sent k = (false, sent, refl, h, inl refl)
  done-AllSafe n device_id true stats sent rest h some_sent (ok, driven, e, safe, passed) = (
    ok,
    sent ++ driven,
    ap (then_send (map pvt_command sent)) e ∙ ap (λ l. some (ok, l)) (map-append sent driven),
    All-append _ _ _ h safe,
    grown n sent driven some_sent refl passed,
  )

  pub if_done-AllSafe :
      (n device_id : ℕ) (o : Option (Bool × PvtLoopStats × List (PvtCommand F)))
      (rest : PvtLoopStats → Option (Bool × List (Command F fl.Double)))
      → LoopSafe device_id o
      → ((stats : PvtLoopStats) → AllSafe n device_id (rest stats))
      → AllSafe (suc n) device_id (if_done o rest)
  if_done-AllSafe n device_id o rest (ok, stats, sent, e, safe, some_sent) k =
      subst (λ x. AllSafe (suc n) device_id (if_done x rest)) (sym e)
        (done-AllSafe n device_id ok stats sent rest safe some_sent (k stats))
