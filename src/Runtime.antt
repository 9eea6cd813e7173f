-- ===== src/Runtime.antt =====
-- src/runtime.cc and include/fleet/fleet.h: the configuration, what `init` asks of it, and the
-- drivers that it makes. A string is the list of its bytes; a driver is the name of its channel,
-- which is what the search for a driver reads.
pub mod Counting
pub mod Validation
pub mod Binding
pub mod Bound
pub mod Drivers
pub mod Starting
pub mod Commanding
pub mod Delivering
pub mod Global
mod Tests
mod BindingTests
use servo_fleet.Prelude.{
  ℕ, zero, suc, ◌+◌, ◌==◌, ltb, ◌||◌, ◌&&◌, not, if◌then◌else◌, Bool, true, false, List, [], ◌∷◌,
  ◌++◌, Option, none, some,
}
use servo_fleet.Error.{FleetErr, is_error}

pub record ChannelConfig : Type 0 where
  pub name : List ℕ
  pub max_bandwidth_bps : ℕ
  pub send_queue_slots : ℕ

pub record MotorConfig : Type 0 where
  pub name : List ℕ
  pub channel : List ℕ
  pub model : List ℕ
  pub can_port : ℕ
  pub can_id : ℕ

pub record FleetConfig : Type 0 where
  pub channels : List ChannelConfig
  pub motors : List MotorConfig

unfoldable pub string_eq : List ℕ → List ℕ → Bool
string_eq [] [] = true
string_eq [] (y ∷ ys) = false
string_eq (x ∷ xs) [] = false
string_eq (x ∷ xs) (y ∷ ys) = x == y && string_eq xs ys

unfoldable pub is_empty : List ℕ → Bool
is_empty [] = true
is_empty (x ∷ xs) = false

-- `std::ranges::count_if` and `std::ranges::any_of`.
unfoldable pub count_if : {A : Type 0} → (A → Bool) → List A → ℕ
count_if f [] = 0
count_if f (x ∷ xs) = (if f x then 1 else 0) + count_if f xs

unfoldable pub any_of : {A : Type 0} → (A → Bool) → List A → Bool
any_of f [] = false
any_of f (x ∷ xs) = f x || any_of f xs

unfoldable pub uses_channel : List MotorConfig → List ℕ → Bool
uses_channel devices channel_name = any_of (λ d. string_eq d.channel channel_name) devices

unfoldable pub channel_exists : FleetConfig → List ℕ → Bool
channel_exists config channel_name = any_of (λ c. string_eq c.name channel_name) config.channels

unfoldable pub device_name_count : FleetConfig → List ℕ → ℕ
device_name_count config name = count_if (λ d. string_eq d.name name) config.motors

unfoldable pub validate_device : FleetConfig → List ℕ → List ℕ → FleetErr
validate_device config name channel_name =
    if is_empty name || not (device_name_count config name == 1)
    then FleetErr.invalid_argument
    else if not (channel_exists config channel_name)
    then FleetErr.invalid_argument
    else FleetErr.ok

-- `item.channel == motor.channel && item.can_port == motor.can_port && …`.
unfoldable pub same_address : MotorConfig → MotorConfig → Bool
same_address motor item =
    string_eq item.channel motor.channel
    && item.can_port == motor.can_port
    && item.can_id == motor.can_id

-- The first loop of `validate_config`.
unfoldable pub validate_names : FleetConfig → List ChannelConfig → FleetErr
validate_names config [] = FleetErr.ok
validate_names config (channel ∷ rest) =
    let later = validate_names config rest in
    if is_empty channel.name
      || not (count_if (λ c. string_eq c.name channel.name) config.channels == 1)
    then FleetErr.invalid_argument
    else later

-- The second loop.
unfoldable pub validate_motors : FleetConfig → List MotorConfig → FleetErr
validate_motors config [] = FleetErr.ok
validate_motors config (motor ∷ rest) =
    let later = validate_motors config rest in
    let error = validate_device config motor.name motor.channel in
    if is_error error
    then error
    else if ltb 0x7ff motor.can_id || not (count_if (same_address motor) config.motors == 1)
    then FleetErr.invalid_argument
    else later

-- The third loop.
unfoldable pub validate_limits : FleetConfig → List ChannelConfig → FleetErr
validate_limits config [] = FleetErr.ok
validate_limits config (channel ∷ rest) =
    let later = validate_limits config rest in
    if uses_channel config.motors channel.name
      && (channel.max_bandwidth_bps == 0 || channel.send_queue_slots == 0)
    then FleetErr.invalid_argument
    else later

unfoldable pub validate_config : FleetConfig → FleetErr
validate_config config =
    let names = validate_names config config.channels in
    let motors = validate_motors config config.motors in
    if is_error names
    then names
    else if is_error motors
    then motors
    else validate_limits config config.channels

-- The drivers that the loop of `init_drivers` adds, in their order.
unfoldable pub drivers_for : FleetConfig → List ChannelConfig → List (List ℕ)
drivers_for config [] = []
drivers_for config (channel ∷ rest) =
    let later = drivers_for config rest in
    if any_of (λ d. string_eq d.channel channel.name) config.motors
    then channel.name ∷ later
    else later

unfoldable pub init_drivers : FleetConfig → List (List ℕ)
init_drivers config = drivers_for config config.channels

unfoldable pub find_driver_slot : List (List ℕ) → List ℕ → Option ℕ
find_driver_slot [] channel_name = none
find_driver_slot (driver ∷ drivers) channel_name =
    let later = find_driver_slot drivers channel_name in
    if string_eq driver channel_name
    then some 0
    else elim later [ none ↦ none | some slot ↦ some (slot + 1) ]
