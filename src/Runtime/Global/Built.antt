-- ===== src/Runtime/Global/Built.antt =====
-- The runtime that an `init` builds has all its lanes in order.
use servo_fleet.Prelude.{
  ℕ, ◌<◌, ◌≡◌, refl, arith, Bool, false, Bool-cases, inl, inr, List, [], ◌∷◌, map, Option, none,
  some, All,
}
use servo_fleet.Error.{FleetErr, is_error}
use servo_fleet.Driver.Batch.{new_batch}
use servo_fleet.Driver.Flushing.{emptied-IsBatch}
use servo_fleet.Driver.Commanding.{IsAddress}
use servo_fleet.Channel.Realtime.Packets.{datagrams}
use servo_fleet.Runtime.{
  ChannelConfig, MotorConfig, FleetConfig, validate_config, validate_motors, validate_device,
}
use servo_fleet.Runtime.Validation.{validate_config-motors}
use servo_fleet.Runtime.Binding.{MotorDriver, Runtime, address_of, make_drivers, bind_motors, init}
use servo_fleet.Runtime.Drivers.{
  AreReady, end, more, MadeIfAny, make_drivers-MadeIfAny, bind_motors-AreReady,
}
use servo_fleet.Runtime.Delivering.{done, next, same-Extends}
use servo_fleet.Runtime.Global.{lane_of}
use servo_fleet.Runtime.Global.Lanes.{AllInOrder}

-- The ports are within `uint8_t`.
abbrev pub PortsFit : List MotorConfig → Type 0
PortsFit motors = All (λ c. c.can_port < 256) motors

motors-IsAddress :
    (config : FleetConfig) (motors : List MotorConfig)
    → validate_motors config motors ≡ FleetErr.ok
    → PortsFit motors
    → All (λ c. IsAddress (address_of c)) motors
unfolding validate_motors validate_device
motors-IsAddress config [] ok h = tt
motors-IsAddress config (motor ∷ rest) ok h =
    ((h.0, ground arith), motors-IsAddress config rest (ground arith) h.1)

pub lanes-AllInOrder :
    {ns : List ℕ} {ds : List MotorDriver} → AreReady ns ds → AllInOrder ns (map lane_of ds)
lanes-AllInOrder end = done
lanes-AllInOrder (more n d a r h) =
    next n (lane_of d) (lane_of d)
      (record { addresses = a; batch = emptied-IsBatch new_batch refl refl; ready = r })
      (same-Extends (datagrams d.channel)) (lanes-AllInOrder h)

no_error : (e : FleetErr) → is_error e ≡ false → e ≡ FleetErr.ok
no_error e h = ground arith

-- `bind_motors` on the drivers that were made, if they were.
abbrev bound_if_made : FleetConfig → Option (List MotorDriver) → FleetErr × Runtime
bound_if_made options made =
    let empty : Runtime = record { motors = []; motor_drivers = []; device_bindings = [] } in
    elim made [
      | none ↦ (FleetErr.io_error, empty)
      | some drivers ↦ bind_motors options.motors (record empty { motor_drivers = drivers })
    ]

bound_if_made-AreReady :
    (options : FleetConfig) (names : List (List ℕ)) (made : Option (List MotorDriver))
    → All (λ c. IsAddress (address_of c)) options.motors
    → MadeIfAny names made
    → (ns : List ℕ) × AreReady ns (bound_if_made options made).1.motor_drivers
bound_if_made-AreReady options names none a h = ([], end)
bound_if_made-AreReady options names (some ds) a h =
    (h.slots, bind_motors-AreReady options.motors _ a h.ready)

-- The drivers that `init` leaves are ready.
pub init-AreReady :
    (opens : ChannelConfig → Bool) (options : FleetConfig)
    → PortsFit options.motors
    → (ns : List ℕ) × AreReady ns (init opens options).1.motor_drivers
unfolding init
init-AreReady opens options fit = elim (Bool-cases (is_error (validate_config options))) [
  | inl refused ↦ rw refused ([], end)
  | inr valid ↦
      let ok = no_error (validate_config options) valid in
      rw valid (
        bound_if_made-AreReady options _ (make_drivers opens options 0 options.channels)
          (motors-IsAddress options options.motors (validate_config-motors options ok) fit)
          (make_drivers-MadeIfAny opens options 0 options.channels))
]
