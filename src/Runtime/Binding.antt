-- ===== src/Runtime/Binding.antt =====
-- src/runtime.cc: `init` with `init_drivers` and `bind_motors`, and the search for a binding. A driver
-- is the name of its channel, its routes and its channel. What the system answers to a new channel is
-- a function of its configuration: whether the address is one, the socket opens and binds, and there
-- is memory for its packets.
use servo_fleet.Prelude.{
  ℕ, suc, Bool, true, if◌then◌else◌, List, [], ◌∷◌, ◌++◌, length, get_or, get_elem?, set, map,
  Option, none, some,
}
use servo_fleet.Words.{u32}
use servo_fleet.Error.{FleetErr, is_error}
use servo_fleet.CanFrame.{CanAddr}
use servo_fleet.Specs.{MotorEcSpec, find_motor_ec_spec}
use servo_fleet.Driver.{Routing, bind_motor}
use servo_fleet.Channel.PacketPool.{packet_pool}
use servo_fleet.Channel.Realtime.{RealtimeUdpChannel, realtime_udp_channel, motor_udp_packet_cap}
use servo_fleet.Runtime.{
  ChannelConfig, MotorConfig, FleetConfig, validate_config, find_driver_slot, any_of, string_eq,
}

pub record MotorDriver : Type 0 where
  pub name : List ℕ
  pub routing : Routing
  pub channel : RealtimeUdpChannel

pub record DeviceBinding : Type 0 where
  pub driver_slot : ℕ
  pub device_slot : ℕ

-- What `motor_device` keeps of its constructor's arguments.
pub record BoundMotor : Type 0 where
  pub device_id : ℕ
  pub name : List ℕ
  pub address : CanAddr
  pub ec_spec : Option MotorEcSpec

pub record Runtime : Type 0 where
  pub motors : List BoundMotor
  pub motor_drivers : List MotorDriver
  pub device_bindings : List DeviceBinding

abbrev pub new_driver : List ℕ → RealtimeUdpChannel → MotorDriver
new_driver name channel = record {
  name = name;
  routing = record { devices = []; motor_routes = [] };
  channel = channel;
}

-- In place of a driver behind the last.
abbrev pub no_driver : MotorDriver
no_driver =
    new_driver []
      (record { self = 0; stopped = true; send_queue = packet_pool [] 0 motor_udp_packet_cap })

-- The constructor of a driver, which throws when the one of its channel does.
unfoldable pub motor_driver : (ChannelConfig → Bool) → ℕ → ChannelConfig → Option MotorDriver
unfolding realtime_udp_channel
motor_driver opens self config =
    if opens config
    then elim (realtime_udp_channel self config.send_queue_slots) [
      | none ↦ none
      | some channel ↦ some (new_driver config.name channel)
    ]
    else none

-- `motor_drivers_.push_back`, and then the rest of the loop; `none` is an exception.
abbrev pub driver_first : Option MotorDriver → Option (List MotorDriver) → Option (List MotorDriver)
driver_first none rest = none
driver_first (some d) none = none
driver_first (some d) (some ds) = some (d ∷ ds)

-- The loop of `init_drivers`.
unfoldable pub make_drivers :
    (ChannelConfig → Bool) → FleetConfig → ℕ → List ChannelConfig → Option (List MotorDriver)
unfolding motor_driver
make_drivers opens options self [] = some []
make_drivers opens options self (channel ∷ rest) =
    let others = make_drivers opens options (suc self) rest in
    if any_of (λ d. string_eq d.channel channel.name) options.motors
    then driver_first (motor_driver opens self channel) others
    else others

abbrev pub address_of : MotorConfig → CanAddr
address_of config = record { can_port = config.can_port; can_id = config.can_id }

abbrev pub driver_at : Runtime → ℕ → MotorDriver
driver_at r slot = get_or r.motor_drivers slot no_driver

abbrev pub names : List MotorDriver → List (List ℕ)
names = map (λ d. d.name)

-- A round of the loop, once the driver and the model are found.
unfoldable pub bind_one : Runtime → MotorConfig → ℕ → MotorEcSpec → Runtime
bind_one r config slot spec =
    let driver = driver_at r slot in
    let (device_slot, routing) = bind_motor driver.routing (address_of config) in
    record {
      motors =
          r.motors
          ++ (record {
            device_id = u32 (length r.device_bindings);
            name = config.name;
            address = address_of config;
            ec_spec = some spec;
          }
              ∷ []);
      motor_drivers = set r.motor_drivers slot (record driver { routing = routing });
      device_bindings =
          r.device_bindings ++ (record { driver_slot = slot; device_slot = device_slot } ∷ []);
    }

unfoldable pub bind_motors : List MotorConfig → Runtime → FleetErr × Runtime
unfolding bind_one
bind_motors [] r = (FleetErr.ok, r)
bind_motors (config ∷ rest) r = elim (find_driver_slot (names r.motor_drivers) config.channel) [
  | none ↦ (FleetErr.invalid_argument, r)
  | some slot ↦ elim (find_motor_ec_spec config.model) [
    | none ↦ (FleetErr.invalid_argument, r)
    | some spec ↦ bind_motors rest (bind_one r config slot spec)
  ]
]

-- `runtime_t::init`. After an exception the caller drops the object, and the model keeps no driver.
unfoldable pub init : (ChannelConfig → Bool) → FleetConfig → FleetErr × Runtime
unfolding bind_motors make_drivers
init opens options =
    let error = validate_config options in
    let empty : Runtime = record { motors = []; motor_drivers = []; device_bindings = [] } in
    if is_error error
    then (error, empty)
    else elim (make_drivers opens options 0 options.channels) [
      | none ↦ (FleetErr.io_error, empty)
      | some drivers ↦ bind_motors options.motors (record empty { motor_drivers = drivers })
    ]

unfoldable pub find_device_binding : Runtime → ℕ → Option DeviceBinding
find_device_binding r device_id = get_elem? r.device_bindings device_id
