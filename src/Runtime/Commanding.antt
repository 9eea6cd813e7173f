-- ===== src/Runtime/Commanding.antt =====
-- src/runtime.cc: `send_motor_commands`. A lane is a driver with its devices and channel, and the
-- batch that the call makes for it. A binding's driver slot is that of a lane, as `init` leaves it;
-- for any other the model does nothing.
use servo_fleet.Prelude.{
  ℕ, zero, suc, if◌then◌else◌, List, [], ◌∷◌, map, get_elem?, Option, none, some,
}
use servo_fleet.Error.{FleetErr, is_error}
use servo_fleet.CanFrame.{CanAddr}
use servo_fleet.Floats.{Floats}
use servo_fleet.Commands.{
  Command, pvt_command, position_command, velocity_command, torque_command, current_command,
  brake_command, config_set_command, config_query_command,
}
use servo_fleet.Channel.Realtime.{RealtimeUdpChannel, discard_pending_sends}
use servo_fleet.Driver.Batch.{BatchCommands, Outcome, new_batch, push, flush}
use servo_fleet.Runtime.Binding.{DeviceBinding}

pub record Lane : Type 0 where
  pub devices : List CanAddr
  pub channel : RealtimeUdpChannel
  pub batch : BatchCommands

unfoldable pub command_device_id : {F D : Type 0} → Command F D → ℕ
command_device_id (pvt_command c) = c.device_id
command_device_id (position_command c) = c.device_id
command_device_id (velocity_command c) = c.device_id
command_device_id (torque_command c) = c.device_id
command_device_id (current_command c) = c.device_id
command_device_id (brake_command c) = c.device_id
command_device_id (config_set_command c) = c.device_id
command_device_id (config_query_command c) = c.device_id

-- A lane after a call on its batch.
abbrev pub lane_after : Lane → Outcome → FleetErr × Lane
lane_after l (e, b, c) = (e, record l { batch = b; channel = c })

abbrev pub later_lanes : Lane → FleetErr × List Lane → FleetErr × List Lane
later_lanes l (e, ls) = (e, l ∷ ls)

abbrev pub first_lane : FleetErr × Lane → List Lane → FleetErr × List Lane
first_lane (e, l) ls = (e, l ∷ ls)

-- The error that a step leaves, after an earlier one.
abbrev pub last_error : FleetErr → FleetErr → FleetErr
last_error error e = if is_error e then e else error

-- `if (auto flush_error = batch.flush()) error = flush_error;` for each batch.
abbrev pub flushed_first :
    FleetErr → FleetErr × Lane → (FleetErr → FleetErr × List Lane) → FleetErr × List Lane
flushed_first error (e, l) rest = later_lanes l (rest (last_error error e))

unfoldable pub flush_all : FleetErr → List Lane → FleetErr × List Lane
unfolding flush
flush_all error [] = (error, [])
flush_all error (l ∷ ls) =
    flushed_first error (lane_after l (flush l.batch l.channel)) (λ e. flush_all e ls)

module _ (F : Type 0) ⦃fl : Floats F⦄ where
  unfoldable pub push_at : ℕ → ℕ → Command F fl.Double → List Lane → FleetErr × List Lane
  unfolding push
  push_at driver_slot device_slot command [] = (FleetErr.ok, [])
  push_at zero device_slot command (l ∷ ls) =
      first_lane (lane_after l (push F l.devices l.batch l.channel device_slot command)) ls
  push_at (suc driver_slot) device_slot command (l ∷ ls) =
      later_lanes l (push_at driver_slot device_slot command ls)

  -- A round of the loop over the commands.
  unfoldable pub push_bound :
      Option DeviceBinding → Command F fl.Double → List Lane → FleetErr × List Lane
  unfolding push_at
  push_bound none command ls = (FleetErr.invalid_argument, ls)
  push_bound (some binding) command ls = push_at binding.driver_slot binding.device_slot command ls

  unfoldable pub push_all :
      List DeviceBinding → List (Command F fl.Double) → FleetErr → List Lane → FleetErr × List Lane
  unfolding push_bound command_device_id
  push_all bindings [] error ls = (error, ls)
  push_all bindings (command ∷ commands) error ls =
      let (e, pushed) = push_bound (get_elem? bindings (command_device_id command)) command ls in
      push_all bindings commands (last_error error e) pushed

  unfoldable pub send_motor_commands :
      List DeviceBinding → List (Command F fl.Double) → List Lane → FleetErr × List Lane
  unfolding push_all flush_all
  send_motor_commands bindings commands ls =
      let fresh = map (λ (l : Lane). record l { batch = new_batch }) ls in
      let (error, pushed) = push_all bindings commands FleetErr.ok fresh in flush_all error pushed

unfoldable pub discard_pending_commands : List Lane → FleetErr × List Lane
discard_pending_commands ls =
    (FleetErr.ok, map (λ (l : Lane). record l { channel = discard_pending_sends l.channel }) ls)
