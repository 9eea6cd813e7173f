-- ===== src/Runtime/Validation.antt =====
-- What an accepted configuration is worth.
use servo_fleet.Prelude.{
  ℕ, zero, suc, ◌≤◌, Bool, true, false, List, [], ◌∷◌, get_elem?, none, some, ◌≡◌, refl, sym, subst,
  arith, ap, Bool-cases, inl, inr,
}
use servo_fleet.Error.{FleetErr}
use servo_fleet.Runtime.{
  ChannelConfig, MotorConfig, FleetConfig, string_eq, is_empty, count_if, any_of, same_address,
  device_name_count, channel_exists, validate_device, validate_motors, validate_config, drivers_for,
  init_drivers, find_driver_slot,
}
use servo_fleet.Runtime.Counting.{
  string_eq_refl, string_eq_sound, count_if_one, any_of-true, any_of-found,
}

-- What the second loop asks of one motor.
pub record Accepted (config : FleetConfig) (motor : MotorConfig) : Type 0 where
  pub named : is_empty motor.name ≡ false
  pub name_once : count_if (λ (d : MotorConfig). string_eq d.name motor.name) config.motors ≡ 1
  pub channel_known : channel_exists config motor.channel ≡ true
  pub standard_id : motor.can_id ≤ 0x7ff
  pub address_once : count_if (same_address motor) config.motors ≡ 1

pub some_injective : {A : Type 0} {a b : A} → some a ≡ some b → a ≡ b
some_injective {a = a} e = ap (λ o. elim o [ none ↦ a | some x ↦ x ]) e

validate_motors-head :
    (config : FleetConfig) (motor : MotorConfig) (rest : List MotorConfig)
    → validate_motors config (motor ∷ rest) ≡ FleetErr.ok
    → Accepted config motor
unfolding validate_motors validate_device device_name_count
validate_motors-head config motor rest ok = record {
  named = ground arith;
  name_once = ground arith;
  channel_known = ground arith;
  standard_id = ground arith;
  address_once = ground arith;
}

validate_motors-Accepted :
    (config : FleetConfig) (motors : List MotorConfig) (i : ℕ) (motor : MotorConfig)
    → validate_motors config motors ≡ FleetErr.ok
    → get_elem? motors i ≡ some motor
    → Accepted config motor
unfolding validate_motors validate_device device_name_count
validate_motors-Accepted config [] i motor ok e = ground arith
validate_motors-Accepted config (m ∷ rest) zero motor ok e =
    subst (Accepted config) (some_injective e) (validate_motors-head config m rest ok)
validate_motors-Accepted config (m ∷ rest) (suc i) motor ok e =
    validate_motors-Accepted config rest i motor (ground arith) e

pub validate_config-motors :
    (config : FleetConfig)
    → validate_config config ≡ FleetErr.ok
    → validate_motors config config.motors ≡ FleetErr.ok
unfolding validate_config
validate_config-motors config ok = ground arith

pub validate_config-Accepted :
    (config : FleetConfig) (i : ℕ) (motor : MotorConfig)
    → validate_config config ≡ FleetErr.ok
    → get_elem? config.motors i ≡ some motor
    → Accepted config motor
validate_config-Accepted config i motor ok e =
    validate_motors-Accepted config config.motors i motor (validate_config-motors config ok) e

same_address_self : (motor : MotorConfig) → same_address motor motor ≡ true
unfolding same_address
same_address_self motor = ground (arith, string_eq_refl motor.channel)

same_address-eq :
    (a b : MotorConfig)
    → a.channel ≡ b.channel
    → a.can_port ≡ b.can_port
    → a.can_id ≡ b.can_id
    → same_address a b ≡ true
unfolding same_address
same_address-eq a b c p i =
    ground (arith, subst (λ x. string_eq b.channel x ≡ true) (sym c) (string_eq_refl b.channel))

-- Of an accepted configuration no two motors have one name, no two have one address on one channel,
-- and every address is one of a standard frame.
pub validate_config-distinct :
    (config : FleetConfig) (i j : ℕ) (a b : MotorConfig)
    → validate_config config ≡ FleetErr.ok
    → get_elem? config.motors i ≡ some a
    → get_elem? config.motors j ≡ some b
    → (a.name ≡ b.name → i ≡ j)
      × (a.channel ≡ b.channel → a.can_port ≡ b.can_port → a.can_id ≡ b.can_id → i ≡ j)
      × (a.can_id ≤ 0x7ff)
validate_config-distinct config i j a b ok ea eb =
    let accepted = validate_config-Accepted config i a ok ea in
    (
      λ name.
          count_if_one (λ (d : MotorConfig). string_eq d.name a.name) config.motors i j a b
            (omega (arith, accepted.name_once)) ea eb (string_eq_refl a.name)
            (subst (λ s. string_eq s a.name ≡ true) name (string_eq_refl a.name)),
      λ c p k.
          count_if_one (same_address a) config.motors i j a b (omega (arith, accepted.address_once))
            ea eb (same_address_self a) (same_address-eq a b c p k),
      accepted.standard_id,
    )

-- The driver that a search for `name` finds.
abbrev Finds : List (List ℕ) → List ℕ → Type 0
Finds drivers name =
    (slot : ℕ) × (find_driver_slot drivers name ≡ some slot) × (get_elem? drivers slot ≡ some name)

Finds-here :
    (d : List ℕ) (drivers : List (List ℕ)) (name : List ℕ)
    → string_eq d name ≡ true
    → Finds (d ∷ drivers) name
unfolding find_driver_slot
Finds-here d drivers name h = (0, rw (h, find_driver_slot) refl, ap some (string_eq_sound d name h))

Finds-there :
    (d : List ℕ) (drivers : List (List ℕ)) (name : List ℕ)
    → string_eq d name ≡ false
    → Finds drivers name
    → Finds (d ∷ drivers) name
unfolding find_driver_slot
Finds-there d drivers name h (slot, e, g) =
    (suc slot, rw (h, find_driver_slot, e) (ap some (omega arith)), g)

Finds-cons :
    (d : List ℕ) (drivers : List (List ℕ)) (name : List ℕ)
    → Finds drivers name
    → Finds (d ∷ drivers) name
Finds-cons d drivers name found = elim (Bool-cases (string_eq d name)) [
  | inl here ↦ Finds-here d drivers name here
  | inr there ↦ Finds-there d drivers name there found
]

abbrev in_use : FleetConfig → List ℕ → Bool
in_use config name = any_of (λ (d : MotorConfig). string_eq d.channel name) config.motors

drivers_for-used :
    (config : FleetConfig) (c : ChannelConfig) (rest : List ChannelConfig)
    → in_use config c.name ≡ true
    → drivers_for config (c ∷ rest) ≡ c.name ∷ drivers_for config rest
unfolding drivers_for
drivers_for-used config c rest u = rw (u, drivers_for) refl

drivers_for-unused :
    (config : FleetConfig) (c : ChannelConfig) (rest : List ChannelConfig)
    → in_use config c.name ≡ false
    → drivers_for config (c ∷ rest) ≡ drivers_for config rest
unfolding drivers_for
drivers_for-unused config c rest u = rw (u, drivers_for) refl

-- A channel in use gets a driver.
drivers_for-Finds :
    (config : FleetConfig) (channels : List ChannelConfig) (i : ℕ) (channel : ChannelConfig)
    → get_elem? channels i ≡ some channel
    → in_use config channel.name ≡ true
    → Finds (drivers_for config channels) channel.name
drivers_for-Finds config [] i channel e u = ground arith
drivers_for-Finds config (c ∷ rest) zero channel e u =
    subst (λ (x : ChannelConfig). Finds (drivers_for config (x ∷ rest)) channel.name)
      (sym (some_injective e))
      (subst (λ ds. Finds ds channel.name) (sym (drivers_for-used config channel rest u))
        (Finds-here channel.name (drivers_for config rest) channel.name
          (string_eq_refl channel.name)))
drivers_for-Finds config (c ∷ rest) (suc i) channel e u =
    let later = drivers_for-Finds config rest i channel e u in
    elim (Bool-cases (in_use config c.name)) [
      | inl used ↦
          subst (λ ds. Finds ds channel.name) (sym (drivers_for-used config c rest used))
            (Finds-cons c.name (drivers_for config rest) channel.name later)
      | inr unused ↦
          subst (λ ds. Finds ds channel.name) (sym (drivers_for-unused config c rest unused)) later
    ]

-- Of an accepted configuration every motor has a driver: the search of `bind_motors` among the
-- drivers of `init_drivers` finds one, and it is the one of the motor's channel.
pub init_drivers-find_driver_slot :
    (config : FleetConfig) (i : ℕ) (motor : MotorConfig)
    → validate_config config ≡ FleetErr.ok
    → get_elem? config.motors i ≡ some motor
    → (slot : ℕ) × (find_driver_slot (init_drivers config) motor.channel ≡ some slot)
      × (get_elem? (init_drivers config) slot ≡ some motor.channel)
unfolding init_drivers channel_exists
init_drivers-find_driver_slot config i motor ok e =
    let accepted = validate_config-Accepted config i motor ok e in
    let (j, channel, ec, same) =
      any_of-found (λ (c : ChannelConfig). string_eq c.name motor.channel) config.channels
        accepted.channel_known in
    let name = string_eq_sound channel.name motor.channel same in
    subst (Finds (drivers_for config config.channels)) name (
      drivers_for-Finds config config.channels j channel ec (
        any_of-true (λ (d : MotorConfig). string_eq d.channel channel.name) config.motors i motor e
          (subst (λ s. string_eq motor.channel s ≡ true) (sym name)
            (string_eq_refl motor.channel))))
