-- ===== src/MotorPvtControl/Cleanup.antt =====
-- What the PVT tool sends to a motor, on every path.
use servo_fleet.Prelude.{
  ℕ, ◌≤◌, length, ◌≡◌, ◌⊎◌, inl, inr, refl, ap, arith, if◌then◌else◌, Bool, true, false, Bool-cases,
  List, [], ◌∷◌, Option, none, some, map, All,
}
use servo_fleet.Error.{is_error}
use servo_fleet.Feedback.{ConfigQueryCode}
use servo_fleet.Floats.{Floats}
use servo_fleet.Commands.{Command, PvtCommand, pvt_command}
use servo_fleet.MotorPvtControl.{no_stats}
use servo_fleet.MotorPvtControl.Session.{
  View, tune_duration, send_query, set_pvt_current_limit, current_position_r, trajectory, then_send,
  run_from_origin, run_pvt_tuning, run_motor,
}
use servo_fleet.MotorPvtControl.Safe.{
  EnoughRounds, IsSafe, AllSafe, loop-LoopSafe, hold_position-LoopSafe, if_done-AllSafe,
}
use servo_fleet.MotorPvtControl.Expected.{
  limit_read, limit_lowered, may_drive, query, current_limit, low_limit, session,
}

module _ {F : Type 0} ⦃fl : Floats F⦄ where
  -- The session returns. It sends what is to come before the control loops, then safe PVT commands
  -- if the motor may drive, and then what is to come after. If it passed, it may drive, and there are
  -- three PVT commands at least.
  abbrev pub Sends : ℕ → View F → Option (Bool × List (Command F fl.Double)) → Type 0
  Sends device_id v o =
      (ok : Bool) × (driven : List (PvtCommand F)) × (o ≡ some (ok, session device_id v driven))
      × All (IsSafe device_id) driven
      × ((ok ≡ false) ⊎ ((may_drive v ≡ true) × (3 ≤ length driven)))

  set_pvt_current_limit-eq :
      (device_id : ℕ) (v : View F)
      → set_pvt_current_limit device_id v ≡ (
        if limit_lowered v then some v.limit.value else none,
        query device_id ConfigQueryCode.pvt_current_limit
            ∷ (if limit_read v then current_limit device_id low_limit ∷ [] else []),
      )
  unfolding set_pvt_current_limit
  set_pvt_current_limit-eq device_id v = elim (Bool-cases (limit_read v)) [
    | inr late ↦ rw late refl
    | inl on_time ↦ elim (Bool-cases (is_error v.limit_error)) [
      | inl refused ↦ rw (on_time, refused) refl
      | inr set ↦ rw (on_time, set) refl
    ]
  ]

  module _ (sin cos : F → F) (seconds : ℕ → F) where
    run_from_origin-AllSafe :
        (device_id : ℕ) (v : View F) (origin_r : F)
        → EnoughRounds v
        → AllSafe 3 device_id (run_from_origin sin cos seconds device_id v origin_r)
    unfolding run_from_origin
    run_from_origin-AllSafe device_id v origin_r h =
        if_done-AllSafe 2 device_id _ _
          (hold_position-LoopSafe device_id origin_r v.settle no_stats h.0)
          (λ s.
            if_done-AllSafe 1 device_id _ _
              (loop-LoopSafe device_id tune_duration (trajectory sin cos seconds origin_r) v.tune s
                (omega arith) h.1)
              (λ s'.
                if_done-AllSafe 0 device_id _ _
                  (hold_position-LoopSafe device_id origin_r v.back s' h.2)
                  (λ s''. (true, [], refl, tt, inr (omega arith)))))

    from_current-AllSafe :
        (device_id : ℕ) (v : View F) (o : Option F)
        → EnoughRounds v
        → AllSafe {F = F} ⦃fl = fl⦄ 3 device_id (elim o [
          | none ↦ some (false, [])
          | some origin_r ↦ run_from_origin sin cos seconds device_id v origin_r
        ])
    from_current-AllSafe device_id v none h = (false, [], refl, tt, inl refl)
    from_current-AllSafe device_id v (some origin_r) h =
        run_from_origin-AllSafe device_id v origin_r h

    -- The tuning returns, after the query of the position and safe PVT commands.
    run_pvt_tuning-eq :
        (device_id : ℕ) (v : View F)
        → EnoughRounds v
        → (ok : Bool) × (driven : List (PvtCommand F)) × (run_pvt_tuning sin cos seconds device_id v
            ≡ some (ok, query device_id ConfigQueryCode.position ∷ map pvt_command driven))
          × All (IsSafe device_id) driven
          × ((ok ≡ false) ⊎ (3 ≤ length driven))
    unfolding run_pvt_tuning
    run_pvt_tuning-eq device_id v h =
        let (ok, driven, e, safe, passed) =
          from_current-AllSafe device_id v (current_position_r v) h in
        (
          ok,
          driven,
          ap (then_send (send_query device_id ConfigQueryCode.position ∷ [])) e,
          safe,
          passed,
        )

-- What one motor is sent, if the clock gives each control loop its rounds, whatever the motor
-- answers. The session returns. It sends, in this order: the queries of the limits; the lower
-- current limit of 0.8 A, if the original one was read in time; the queries of the feedback; the
-- release of the brake. If that limit was accepted and the brake released, the query of the
-- position and PVT commands follow, each to this motor and with a position in range, the tool's
-- gains and no torque of its own, at least three if the motor passes; otherwise it has failed. The
-- end is a torque command of zero, the limit that was read, if the lower one was accepted, and the queries of the feedback.
pub run_motor_lem :
    {F : Type 0} ⦃fl : Floats F⦄ (sin cos : F → F) (seconds : ℕ → F) (device_id : ℕ) (v : View F)
    → EnoughRounds v
    → Sends device_id v (run_motor sin cos seconds device_id v)
unfolding run_motor
run_motor_lem {F} sin cos seconds device_id v h =
    let (ok, driven, e, safe, passed) = run_pvt_tuning-eq sin cos seconds device_id v h in
    rw (set_pvt_current_limit-eq device_id v, e)
      (elim (Bool-cases (limit_read v)) [
        | inr late ↦ rw late (false, [], refl, tt, inl refl)
        | inl on_time ↦ elim (Bool-cases (is_error v.limit_error)) [
          | inl refused ↦ rw (on_time, refused) (false, [], refl, tt, inl refl)
          | inr set ↦ elim (Bool-cases (is_error v.brake_error)) [
            | inl braked ↦ rw (on_time, set, braked) (false, [], refl, tt, inl refl)
            | inr released ↦
                rw (on_time, set, released)
                  (
                    ok,
                    driven,
                    refl,
                    safe,
                    elim passed [ inl bad ↦ inl bad | inr three ↦ inr (refl, three) ],
                  )
          ]
        ]
      ])
