-- ===== src/Runtime/Global.antt =====
-- src/runtime.cc: the runtime of the process, and the calls of include/fleet/fleet.h on it. What an
-- `init` finds of the system is an `Attempt`; the calls come one after another.
pub mod Lanes
pub mod Built
pub mod Order
use servo_fleet.Prelude.{
  ℕ, if◌then◌else◌, Bool, true, false, List, [], ◌∷◌, map, Option, none, some,
}
use servo_fleet.Error.{FleetErr, is_error}
use servo_fleet.Floats.{Floats}
use servo_fleet.Commands.{Command}
use servo_fleet.Driver.Batch.{new_batch}
use servo_fleet.Runtime.{ChannelConfig, FleetConfig}
use servo_fleet.Runtime.Binding.{MotorDriver, DeviceBinding}
use servo_fleet.Runtime.Commanding.{Lane, send_motor_commands, discard_pending_commands}
use servo_fleet.Runtime.Binding

-- What the calls need of a runtime that started.
pub record Started : Type 0 where
  pub device_bindings : List DeviceBinding
  pub lanes : List Lane

-- What an `init` meets in the system: whether `make_shared` throws, which comes first; which channels
-- get a socket and memory; and whether the start of a driver throws.
pub record Attempt : Type 0 where
  pub throws : Bool
  pub opens : ChannelConfig → Bool
  pub start_fails : Bool

-- A driver as the calls on the runtime use it, with the batch that a call makes for it.
abbrev pub lane_of : MotorDriver → Lane
lane_of d = record { devices = d.routing.devices; channel = d.channel; batch = new_batch }

-- `init`, on the runtime of the process: `none` is a null pointer.
unfoldable pub init : FleetConfig → Attempt → Option Started → FleetErr × Option Started
unfolding Binding.init
init options attempt runtime =
    let (error, next) = Binding.init attempt.opens options in
    if attempt.throws
    then (FleetErr.io_error, runtime)
    else if is_error error
    then (error, runtime)
    else if attempt.start_fails
    then (FleetErr.io_error, runtime)
    else (
      FleetErr.ok,
      some (record {
        device_bindings = next.device_bindings;
        lanes = map lane_of next.motor_drivers;
      }),
    )

abbrev pub shutdown : Option Started → Option Started
shutdown runtime = none

unfoldable pub ok : Option Started → Bool
ok runtime = elim runtime [ none ↦ false | some r ↦ true ]

-- A command or, in `commands`, a span of commands of one type.
pub data FleetCommand (F D : Type 0) : Type 0 where
  motor_command : Command F D → FleetCommand F D
  net_control_command discard_pending_command : FleetCommand F D

abbrev pub with_lanes : Started → FleetErr × List Lane → FleetErr × Option Started
with_lanes r (error, ls) = (error, some (record r { lanes = ls }))

module _ (F : Type 0) ⦃fl : Floats F⦄ where
  -- `runtime_t::send_command`
  unfoldable pub send_command : FleetCommand F fl.Double → Started → FleetErr × Option Started
  unfolding send_motor_commands discard_pending_commands
  send_command (motor_command c) r =
      with_lanes r (send_motor_commands F r.device_bindings (c ∷ []) r.lanes)
  send_command net_control_command r = (FleetErr.ok, some r)
  send_command discard_pending_command r = with_lanes r (discard_pending_commands r.lanes)

  unfoldable pub command : FleetCommand F fl.Double → Option Started → FleetErr × Option Started
  unfolding send_command
  command c none = (FleetErr.io_error, none)
  command c (some r) = send_command c r

  -- The overload for a span of commands to motors.
  unfoldable pub commands : List (Command F fl.Double) → Option Started → FleetErr × Option Started
  unfolding send_motor_commands
  commands cs none = (FleetErr.io_error, none)
  commands cs (some r) = with_lanes r (send_motor_commands F r.device_bindings cs r.lanes)
