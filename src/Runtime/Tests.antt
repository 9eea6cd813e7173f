-- ===== src/Runtime/Tests.antt =====
-- A configuration of two motors on one of two channels.
use servo_fleet.Prelude.{ℕ, [], ◌∷◌, some, get_elem?, ◌≡◌, ◌≤◌, refl}
use servo_fleet.Error.{FleetErr}
use servo_fleet.Runtime.{
  MotorConfig, FleetConfig, validate_config, init_drivers, find_driver_slot, validate_names,
  validate_motors, validate_limits, validate_device, device_name_count, channel_exists,
  uses_channel, same_address, string_eq, is_empty, count_if, any_of,
}
use servo_fleet.Runtime.Validation.{validate_config-distinct, init_drivers-find_driver_slot}

abbrev knee : MotorConfig
knee = record { name = 10 ∷ []; channel = 1 ∷ []; model = 5 ∷ []; can_port = 0; can_id = 3 }

abbrev hip : MotorConfig
hip = record { name = 11 ∷ []; channel = 1 ∷ []; model = 5 ∷ []; can_port = 0; can_id = 4 }

abbrev legs : FleetConfig
legs = record {
  channels =
      record { name = 2 ∷ []; max_bandwidth_bps = 0; send_queue_slots = 0 }
      ∷ record { name = 1 ∷ []; max_bandwidth_bps = 1000; send_queue_slots = 8 }
      ∷ [];
  motors = knee ∷ hip ∷ [];
}

legs_accepted : validate_config legs ≡ FleetErr.ok
unfolding validate_config validate_names validate_motors validate_limits validate_device
    device_name_count channel_exists uses_channel same_address string_eq is_empty count_if any_of
legs_accepted = refl

validate_config-distinct_example :
    (knee.name ≡ hip.name → ◌≡◌ {A = ℕ} 0 1)
    × (knee.channel ≡ hip.channel
        → knee.can_port ≡ hip.can_port
        → knee.can_id ≡ hip.can_id
        → ◌≡◌ {A = ℕ} 0 1)
    × (knee.can_id ≤ 0x7ff)
validate_config-distinct_example =
    validate_config-distinct legs 0 1 knee hip legs_accepted refl refl

init_drivers-find_driver_slot_example :
    (slot : ℕ) × (find_driver_slot (init_drivers legs) (1 ∷ []) ≡ some slot)
    × (get_elem? (init_drivers legs) slot ≡ some (1 ∷ []))
init_drivers-find_driver_slot_example = init_drivers-find_driver_slot legs 1 hip legs_accepted refl
