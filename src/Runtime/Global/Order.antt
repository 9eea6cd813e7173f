-- ===== src/Runtime/Global/Order.antt =====
-- What every sequence of calls leaves of the runtime of the process.
use servo_fleet.Prelude.{
  ℕ, ◌≡◌, refl, ap, ◌∙◌, if◌then◌else◌, Bool, true, false, Bool-cases, inl, inr, List, [], ◌∷◌, map,
  Option, none, some, All, ◌&&◌, not,
}
use servo_fleet.Error.{FleetErr, is_error}
use servo_fleet.Floats.{Floats, IsFloats}
use servo_fleet.Commands.{Command}
use servo_fleet.CanCodec.Wire.{IsCommand}
use servo_fleet.Runtime.{FleetConfig}
use servo_fleet.Runtime.Binding.{DeviceBinding}
use servo_fleet.Runtime.Binding
use servo_fleet.Runtime.Commanding.{discard_pending_commands}
use servo_fleet.Runtime.Delivering.{send_motor_commands-Goes}
use servo_fleet.Runtime.Global.Built.{PortsFit, init-AreReady, lanes-AllInOrder}
use servo_fleet.Runtime.Global.{
  lane_of, Started, Attempt, init, shutdown, ok, FleetCommand, motor_command, net_control_command,
  discard_pending_command, send_command, command, commands,
}
use servo_fleet.Runtime.Global.Lanes.{AllInOrder, Goes-AllInOrder, discard-AllInOrder}

-- A runtime, if there is one, whose lanes are in order, for channels of some numbers of slots.
abbrev pub StaysInOrder : Option Started → Type 0
StaysInOrder none = Unit {0}
StaysInOrder (some r) = (ns : List ℕ) × AllInOrder ns r.lanes

abbrev pub bindings : Option Started → Option (List DeviceBinding)
bindings runtime = elim runtime [ none ↦ none | some r ↦ some r.device_bindings ]

abbrev pub is_some : Option (List DeviceBinding) → Bool
is_some o = elim o [ none ↦ false | some b ↦ true ]

-- The calls of the library.
pub data Call (F D : Type 0) : Type 0 where
  init_call : FleetConfig → Attempt → Call F D
  shutdown_call : Call F D
  command_call : FleetCommand F D → Call F D
  commands_call : List (Command F D) → Call F D

-- Whether an `init` gives the process a new runtime.
abbrev pub succeeds : FleetConfig → Attempt → Bool
succeeds options attempt =
    not attempt.throws
    && not (is_error (Binding.init attempt.opens options).0)
    && not attempt.start_fails

-- The runtime that it gives: the drivers and the bindings that were built.
abbrev pub new_runtime : FleetConfig → Attempt → Started
new_runtime options attempt =
    let built = (Binding.init attempt.opens options).1 in
    record { device_bindings = built.device_bindings; lanes = map lane_of built.motor_drivers }

-- The bindings after calls, the newest first in the list: those of the last `init` that succeeded,
-- if it came after the last `shutdown`.
abbrev pub bound_by : {F D : Type 0} → List (Call F D) → Option (List DeviceBinding)
bound_by [] = none
bound_by (init_call options attempt ∷ past) =
    let earlier = bound_by past in
    if succeeds options attempt then some (new_runtime options attempt).device_bindings else earlier
bound_by (shutdown_call ∷ past) = none
bound_by (command_call c ∷ past) = bound_by past
bound_by (commands_call cs ∷ past) = bound_by past

-- The commands and the ports are within their types.
abbrev pub IsCall : {F D : Type 0} → Call F D → Type 0
IsCall (init_call options attempt) = PortsFit options.motors
IsCall shutdown_call = Unit {0}
IsCall (command_call (motor_command c)) = IsCommand c
IsCall (command_call net_control_command) = Unit {0}
IsCall (command_call discard_pending_command) = Unit {0}
IsCall (commands_call cs) = All IsCommand cs

-- What an `init` does to the runtime, on every branch.
init-eq :
    (options : FleetConfig) (attempt : Attempt) (r : Option Started)
    → ((init options attempt r).1
        ≡ (if succeeds options attempt then some (new_runtime options attempt) else r))
      × (is_error (init options attempt r).0 ≡ not (succeeds options attempt))
unfolding init
init-eq options attempt r = elim (Bool-cases attempt.throws) [
  | inl throws ↦ rw throws (refl, refl)
  | inr built ↦ elim (Bool-cases (is_error (Binding.init attempt.opens options).0)) [
    | inl refused ↦ rw (built, refused) (refl, refused)
    | inr bound ↦ elim (Bool-cases attempt.start_fails) [
      | inl failed ↦ rw (built, bound, failed) (refl, refl)
      | inr started ↦ rw (built, bound, started) (refl, refl)
    ]
  ]
]

chosen-StaysInOrder :
    (b : Bool) (fresh : Started) (r : Option Started)
    → StaysInOrder (some fresh)
    → StaysInOrder r
    → (bindings (if b then some fresh else r)
        ≡ (if b then some fresh.device_bindings else bindings r))
      × StaysInOrder (if b then some fresh else r)
chosen-StaysInOrder true fresh r h k = (refl, h)
chosen-StaysInOrder false fresh r h k = (refl, k)

init-StaysInOrder :
    (options : FleetConfig) (attempt : Attempt) (r : Option Started)
    → PortsFit options.motors
    → StaysInOrder r
    → (bindings (init options attempt r).1 ≡ (
        if succeeds options attempt
        then some (new_runtime options attempt).device_bindings
        else bindings r))
      × StaysInOrder (init options attempt r).1
init-StaysInOrder options attempt r fit k =
    let (ns, ready) = init-AreReady attempt.opens options fit in
    rw (init-eq options attempt r).0 (
      chosen-StaysInOrder (succeeds options attempt) (new_runtime options attempt) r
        (ns, lanes-AllInOrder ready) k)

module _ (F : Type 0) ⦃fl : Floats F⦄ ⦃law : IsFloats F⦄ where
  -- The runtime of the process after calls, the newest first in the list.
  unfoldable pub runtime_after : List (Call F fl.Double) → Option Started
  unfolding init command commands
  runtime_after [] = none
  runtime_after (init_call options attempt ∷ past) = (init options attempt (runtime_after past)).1
  runtime_after (shutdown_call ∷ past) = shutdown (runtime_after past)
  runtime_after (command_call c ∷ past) = (command F c (runtime_after past)).1
  runtime_after (commands_call cs ∷ past) = (commands F cs (runtime_after past)).1

  sent-StaysInOrder :
      (cs : List (Command F fl.Double)) (r : Option Started)
      → All IsCommand cs
      → StaysInOrder r
      → (bindings (commands F cs r).1 ≡ bindings r) × StaysInOrder (commands F cs r).1
  unfolding commands
  sent-StaysInOrder cs none typed h = (refl, h)
  sent-StaysInOrder cs (some r) typed (ns, h) = (
    refl,
    (ns, Goes-AllInOrder (send_motor_commands-Goes F r.device_bindings cs ns r.lanes typed h).0),
  )

  command-StaysInOrder :
      (c : FleetCommand F fl.Double) (r : Option Started)
      → IsCall {F = F} {D = fl.Double} (command_call c)
      → StaysInOrder r
      → (bindings (command F c r).1 ≡ bindings r) × StaysInOrder (command F c r).1
  unfolding command send_command discard_pending_commands
  command-StaysInOrder c none typed h = (refl, h)
  command-StaysInOrder (motor_command c) (some r) typed (ns, h) = (
    refl,
    (
      ns,
      Goes-AllInOrder
          (send_motor_commands-Goes F r.device_bindings (c ∷ []) ns r.lanes (typed, tt) h).0,
    ),
  )
  command-StaysInOrder net_control_command (some r) typed h = (refl, h)
  command-StaysInOrder discard_pending_command (some r) typed (ns, h) =
      (refl, (ns, discard-AllInOrder h))

  after-StaysInOrder :
      (calls : List (Call F fl.Double))
      → All (IsCall {F = F} {D = fl.Double}) calls
      → (bindings (runtime_after calls) ≡ bound_by calls) × StaysInOrder (runtime_after calls)
  unfolding runtime_after
  after-StaysInOrder [] h = (refl, tt)
  after-StaysInOrder (init_call options attempt ∷ past) h =
      let (same, order) = after-StaysInOrder past h.1 in
      let (now, next_order) = init-StaysInOrder options attempt (runtime_after past) h.0 order in
      (
        now
            ∙ ap
                (λ o.
                  if succeeds options attempt
                  then some (new_runtime options attempt).device_bindings
                  else o)
                same,
        next_order,
      )
  after-StaysInOrder (shutdown_call ∷ past) h = (refl, tt)
  after-StaysInOrder (command_call c ∷ past) h =
      let (same, order) = after-StaysInOrder past h.1 in
      let (now, next_order) = command-StaysInOrder c (runtime_after past) h.0 order in
      (now ∙ same, next_order)
  after-StaysInOrder (commands_call cs ∷ past) h =
      let (same, order) = after-StaysInOrder past h.1 in
      let (now, next_order) = sent-StaysInOrder cs (runtime_after past) h.0 order in
      (now ∙ same, next_order)

  discard_answer :
      (r : Option Started)
      → (command F discard_pending_command r).0 ≡ (if ok r then FleetErr.ok else FleetErr.io_error)
  unfolding command send_command ok discard_pending_commands
  discard_answer none = refl
  discard_answer (some r) = refl

  ok-bindings : (r : Option Started) → ok r ≡ is_some (bindings r)
  unfolding ok
  ok-bindings none = refl
  ok-bindings (some r) = refl

-- The runtime of the process after any calls of the library, with commands and ports within their
-- types, whichever of the calls fail: there is one exactly if the last `init` that succeeded came
-- after the last `shutdown`, it has the bindings that this `init` made, and all its lanes are in
-- order. A command that discards is answered without an error exactly if there is one, and with an
-- I/O error otherwise. One more `init` answers an error exactly if it fails, and then changes
-- nothing of the runtime; otherwise the runtime is the one that it built.
pub runtime_after_lem :
    (F : Type 0) ⦃fl : Floats F⦄ ⦃law : IsFloats F⦄ (calls : List (Call F fl.Double))
    (options : FleetConfig) (attempt : Attempt)
    → All (IsCall {F = F} {D = fl.Double}) calls
    → (ok (runtime_after F calls) ≡ is_some (bound_by calls))
      × (bindings (runtime_after F calls) ≡ bound_by calls)
      × StaysInOrder (runtime_after F calls)
      × ((command F discard_pending_command (runtime_after F calls)).0
          ≡ (if is_some (bound_by calls) then FleetErr.ok else FleetErr.io_error))
      × (is_error (init options attempt (runtime_after F calls)).0 ≡ not (succeeds options attempt))
      × ((init options attempt (runtime_after F calls)).1 ≡ (
          if succeeds options attempt
          then some (new_runtime options attempt)
          else runtime_after F calls))
runtime_after_lem F calls options attempt h =
    let (same, order) = after-StaysInOrder F calls h in
    let up = ok-bindings F (runtime_after F calls) ∙ ap is_some same in
    let (next, answer) = init-eq options attempt (runtime_after F calls) in
    (
      up,
      same,
      order,
      discard_answer F (runtime_after F calls)
          ∙ ap (λ b. if b then FleetErr.ok else FleetErr.io_error) up,
      answer,
      next,
    )
