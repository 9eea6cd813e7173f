-- ===== src/Runtime/BindingTests.antt =====
-- Two motors of a model of the table on one channel, and a command to one of them.
use servo_fleet.Prelude.{
  Bool, true, not, List, false, if◌then◌else◌, [], ◌∷◌, some, ◌≡◌, refl, arith,
}
use servo_fleet.Error.{FleetErr, is_error}
use servo_fleet.Specs.{ec_a2806_p2_36}
use servo_fleet.Floats.{ℤ}
use servo_fleet.Floats.Whole.{whole_floats, whole_floats-IsFloats}
use servo_fleet.CanCodec.Examples.{motor, whole_command}
use servo_fleet.Channel.Realtime.Start.{realtime_udp_channel-Ready}
use servo_fleet.Driver.Batch.{new_batch}
use servo_fleet.Driver.Flushing.{emptied-IsBatch}
use servo_fleet.Runtime.{ChannelConfig, MotorConfig, FleetConfig}
use servo_fleet.Runtime.Binding.{init}
use servo_fleet.Runtime.Bound.{Bound}
use servo_fleet.Runtime.Commanding.{Lane, send_motor_commands}
use servo_fleet.Runtime.Delivering.{
  Goes, done, next, same-Extends, NoneWaits, send_motor_commands-Goes,
}
use servo_fleet.Runtime.Global
use servo_fleet.Runtime.Global.{ok, command, Attempt, discard_pending_command}
use servo_fleet.Runtime.Global.Order.{
  Call, init_call, commands_call, is_some, bound_by, bindings, succeeds, new_runtime, StaysInOrder,
  runtime_after, runtime_after_lem,
}
use servo_fleet.Channel.Realtime.Packets.{datagrams}

abbrev elbow : MotorConfig
elbow = record {
  name = 10 ∷ [];
  channel = 1 ∷ [];
  model = ec_a2806_p2_36.model;
  can_port = 0;
  can_id = 3;
}

abbrev wrist : MotorConfig
wrist = record {
  name = 11 ∷ [];
  channel = 1 ∷ [];
  model = ec_a2806_p2_36.model;
  can_port = 0;
  can_id = 4;
}

abbrev arm : FleetConfig
arm = record {
  channels = record { name = 1 ∷ []; max_bandwidth_bps = 1000; send_queue_slots = 8 } ∷ [];
  motors = elbow ∷ wrist ∷ [];
}

abbrev open_all : ChannelConfig → Bool
open_all c = true

abbrev lane : Lane
lane = record {
  devices = motor ∷ [];
  channel = (realtime_udp_channel-Ready 7 2 (omega arith)).0;
  batch = new_batch;
}

lanes_Goes : Goes (2 ∷ []) (lane ∷ []) (lane ∷ [])
lanes_Goes =
    next 2 lane lane
      (record {
        addresses = omega arith;
        batch = emptied-IsBatch new_batch refl refl;
        ready = (realtime_udp_channel-Ready 7 2 (omega arith)).2;
      })
      (same-Extends (datagrams lane.channel)) done

send_motor_commands-Goes_example :
    Goes
      (2 ∷ [])
      (lane ∷ [])
      (send_motor_commands ℤ
        (record { driver_slot = 0; device_slot = 0 } ∷ [])
        (whole_command ∷ [])
        (lane ∷ [])).1
    × NoneWaits
        (send_motor_commands ℤ
          (record { driver_slot = 0; device_slot = 0 } ∷ [])
          (whole_command ∷ [])
          (lane ∷ [])).1
send_motor_commands-Goes_example =
    send_motor_commands-Goes ℤ (record { driver_slot = 0; device_slot = 0 } ∷ [])
      (whole_command ∷ []) (2 ∷ []) (lane ∷ []) (omega arith) lanes_Goes

abbrev started : Attempt
started = record { throws = false; opens = open_all; start_fails = false }

-- An `init` that succeeds, and then a command.
abbrev history : List (Call ℤ ℤ)
history = commands_call (whole_command ∷ []) ∷ init_call arm started ∷ []

-- An `init` after it, whose start fails.
abbrev failing : Attempt
failing = record { throws = false; opens = open_all; start_fails = true }

runtime_after_lem_example :
    (ok (runtime_after ℤ history) ≡ is_some (bound_by history))
    × (bindings (runtime_after ℤ history) ≡ bound_by history)
    × StaysInOrder (runtime_after ℤ history)
    × ((command ℤ discard_pending_command (runtime_after ℤ history)).0
        ≡ (if is_some (bound_by history) then FleetErr.ok else FleetErr.io_error))
    × (is_error (Global.init arm failing (runtime_after ℤ history)).0 ≡ not (succeeds arm failing))
    × ((Global.init arm failing (runtime_after ℤ history)).1 ≡ (
        if succeeds arm failing then some (new_runtime arm failing) else runtime_after ℤ history))
runtime_after_lem_example =
    runtime_after_lem ℤ history arm failing ((tt, tt), ((omega arith, (omega arith, tt)), tt))
