-- ===== src/Runtime/Starting.antt =====
-- `init` binds every motor of an accepted configuration.
use servo_fleet.Prelude.{ℕ, ◌≤◌, ◌<◌, ◌≡◌, length, get_elem?, some}
use servo_fleet.Specs.{MotorEcSpec, find_motor_ec_spec}
use servo_fleet.Runtime.{MotorConfig, FleetConfig, init_drivers}
use servo_fleet.Runtime.Binding.{Runtime, driver_at, names}
use servo_fleet.Runtime.Bound.{Bound}

-- The first `n` motors are bound, to the drivers of the configuration.
record Binds (options : FleetConfig) (n : ℕ) (r : Runtime) : Type 0 where
  count : length r.device_bindings ≡ n
  same_names : names r.motor_drivers ≡ init_drivers options
  few : (slot : ℕ) → length (driver_at r slot).routing.devices ≤ n
  bound : (i : ℕ) (c : MotorConfig) → i < n → get_elem? options.motors i ≡ some c → Bound r i c

-- Every motor is of a model of the table.
abbrev pub ModelsKnown : FleetConfig → Type 0
ModelsKnown options =
    (i : ℕ) (c : MotorConfig)
    → get_elem? options.motors i ≡ some c
    → (spec : MotorEcSpec) × (find_motor_ec_spec c.model ≡ some spec)
