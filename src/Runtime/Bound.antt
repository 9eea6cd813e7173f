-- ===== src/Runtime/Bound.antt =====
-- What `init` leaves of an accepted configuration.
use servo_fleet.Prelude.{
  ℕ, zero, suc, ◌<◌, ◌^◌, ◌==◌, ◌&&◌, ◌≡◌, ◌≢◌, refl, ap, ◌∙◌, sym, subst, arith, false, Bool-cases,
  inl, inr, if◌then◌else◌, List, [], ◌∷◌, ◌++◌, length, get_or, get_elem?, set, drop, some,
  length-set, get_or-set_self, get_or-set_ne,
}
use native.Mathlib.Nat.{mod-eq_of_lt}
use servo_fleet.Words.{u32}
use servo_fleet.Specs.{MotorEcSpec}
use servo_fleet.Driver.{Routing, bind_motor, route_of}
use servo_fleet.Driver.Routes.{route_of-bind_motor}
use servo_fleet.Runtime.{MotorConfig}
use servo_fleet.Runtime.Validation.{some_injective}
use servo_fleet.Runtime.Binding.{
  MotorDriver, Runtime, no_driver, address_of, driver_at, names, bind_one, find_device_binding,
}

-- Motor `i` of the configuration is bound: its binding names the driver of its channel and a device
-- slot there, which holds its address, and to which the driver routes its feedback.
pub record Bound (r : Runtime) (i : ℕ) (config : MotorConfig) : Type 0 where
  pub slot : ℕ
  pub device : ℕ
  pub binding : find_device_binding r i ≡ some (record { driver_slot = slot; device_slot = device })
  pub inside : slot < length r.motor_drivers
  pub channel : (driver_at r slot).name ≡ config.channel
  pub address : get_elem? (driver_at r slot).routing.devices device ≡ some (address_of config)
  pub routed : route_of (driver_at r slot).routing config.can_port config.can_id ≡ some device

module _ {A : Type 0} where
  get_elem?-append :
      (xs ys : List A) (i : ℕ) (a : A) → get_elem? xs i ≡ some a → get_elem? (xs ++ ys) i ≡ some a
  get_elem?-append [] ys i a h = ground arith
  get_elem?-append (x ∷ xs) ys zero a h = h
  get_elem?-append (x ∷ xs) ys (suc i) a h = get_elem?-append xs ys i a h

  get_elem?-last : (xs : List A) (a : A) → get_elem? (xs ++ (a ∷ [])) (length xs) ≡ some a
  get_elem?-last [] a = refl
  get_elem?-last (x ∷ xs) a = get_elem?-last xs a

  pub drop-head :
      (xs rest : List A) (n : ℕ) (a : A)
      → drop n xs ≡ a ∷ rest
      → (get_elem? xs n ≡ some a) × (drop (suc n) xs ≡ rest)
  drop-head [] rest zero a h = absurd (ground arith)
  drop-head [] rest (suc n) a h = absurd (ground arith)
  drop-head (x ∷ xs) rest zero a h = (ground arith, ground arith)
  drop-head (x ∷ xs) rest (suc n) a h = drop-head xs rest n a h

pub names-at :
    (ds : List MotorDriver) (slot : ℕ) (name : List ℕ)
    → get_elem? (names ds) slot ≡ some name
    → (slot < length ds) × ((get_or ds slot no_driver).name ≡ name)
names-at [] slot name h = absurd (ground arith)
names-at (d ∷ ds) zero name h = (omega arith, ap (λ n. n) (some_injective h))
names-at (d ∷ ds) (suc slot) name h = let ih = names-at ds slot name h in (omega arith, ih.1)

pub names-set :
    (ds : List MotorDriver) (slot : ℕ) (d : MotorDriver)
    → d.name ≡ (get_or ds slot no_driver).name
    → names (set ds slot d) ≡ names ds
names-set [] slot d h = refl
names-set (x ∷ ds) zero d h = ap (λ n. n ∷ names ds) h
names-set (x ∷ ds) (suc slot) d h = ap (◌∷◌ x.name) (names-set ds slot d h)

module _ (r : Runtime) (config : MotorConfig) (slot : ℕ) (spec : MotorEcSpec)
    (inside : slot < length r.motor_drivers) (named : (driver_at r slot).name ≡ config.channel)
    (few : length (driver_at r slot).routing.devices < 2 ^ 32) where
  unfoldable pub old_routing : Routing
  old_routing = (driver_at r slot).routing

  unfoldable pub next : Runtime
  next = bind_one r config slot spec

  unfoldable pub bound_routing : Routing
  bound_routing = (bind_motor old_routing (address_of config)).1

  pub driver_at_self : driver_at next slot ≡ record (driver_at r slot) { routing = bound_routing }
  unfolding next bind_one bound_routing old_routing
  driver_at_self = get_or-set_self r.motor_drivers slot _ no_driver inside

  pub driver_at_ne : (other : ℕ) → slot ≢ other → driver_at next other ≡ driver_at r other
  unfolding next bind_one
  driver_at_ne other ne = get_or-set_ne r.motor_drivers slot other _ no_driver ne

  pub length-drivers : length next.motor_drivers ≡ length r.motor_drivers
  unfolding next bind_one
  length-drivers = length-set r.motor_drivers slot _

  pub bind_one-Bound : Bound (bind_one r config slot spec) (length r.device_bindings) config
  unfolding next bind_one bound_routing bind_motor old_routing find_device_binding
  bind_one-Bound =
      let whole : u32 (length (driver_at r slot).routing.devices)
          ≡ length (driver_at r slot).routing.devices =
        mod-eq_of_lt few in
      record {
        slot = slot;
        device = length (driver_at r slot).routing.devices;
        binding =
            get_elem?-last r.device_bindings _
            ∙ ap (λ n. some (record { driver_slot = slot; device_slot = n })) whole;
        inside = omega (arith, length-drivers);
        channel = ap (λ d. d.name) driver_at_self ∙ named;
        address =
            ap (λ d. get_elem? d.routing.devices (length (driver_at r slot).routing.devices))
              driver_at_self
            ∙ get_elem?-last (driver_at r slot).routing.devices (address_of config);
        routed =
            ap (λ d. route_of d.routing config.can_port config.can_id) driver_at_self
            ∙ route_of-bind_motor (driver_at r slot).routing (address_of config) config.can_port
                config.can_id
            ∙ self_route;
      }
    where
      self_route :
          (if config.can_port == config.can_port && config.can_id == config.can_id
            then some (length (driver_at r slot).routing.devices)
            else route_of (driver_at r slot).routing config.can_port config.can_id)
          ≡ some (length (driver_at r slot).routing.devices)
      self_route = ground arith

  module _ (i : ℕ) (c : MotorConfig)
      (distinct : c.channel ≡ config.channel
        → c.can_port ≡ config.can_port
        → c.can_id ≢ config.can_id)
      (h : Bound r i c) where
    Serves : MotorDriver → Type 0
    Serves d =
        (d.name ≡ c.channel)
        × (get_elem? d.routing.devices h.device ≡ some (address_of c))
        × (route_of d.routing c.can_port c.can_id ≡ some h.device)

    other_address :
        (driver_at r slot).name ≡ c.channel
        → (c.can_port == config.can_port && c.can_id == config.can_id) ≡ false
    other_address e =
        let same : c.channel ≡ config.channel = sym e ∙ named in ground (arith, distinct same)

    still_Serves :
        Serves (driver_at r slot) → Serves (record (driver_at r slot) { routing = bound_routing })
    unfolding Serves bound_routing bind_motor old_routing
    still_Serves (n, a, t) = (
      n,
      get_elem?-append (driver_at r slot).routing.devices _ h.device (address_of c) a,
      route_of-bind_motor (driver_at r slot).routing (address_of config) c.can_port c.can_id
          ∙ rw (other_address n) t,
    )

    served : Serves (driver_at next h.slot)
    unfolding Serves
    served = elim (Bool-cases (slot == h.slot)) [
      | inl e ↦
          let same : slot ≡ h.slot = ground arith in
          subst (λ k. Serves (driver_at next k)) same
            (subst Serves (sym driver_at_self) (
              still_Serves
                (subst (λ k. Serves (driver_at r k)) (sym same) (h.channel, h.address, h.routed))))
      | inr e ↦
          subst Serves (sym (driver_at_ne h.slot (λ p. ground arith)))
            (h.channel, h.address, h.routed)
    ]

    pub Bound-bind_one : Bound (bind_one r config slot spec) i c
    unfolding next bind_one find_device_binding Serves
    Bound-bind_one = record {
      slot = h.slot;
      device = h.device;
      binding = get_elem?-append r.device_bindings _ i _ h.binding;
      inside = omega (arith, length-drivers, h.inside);
      channel = served.0;
      address = served.1;
      routed = served.2;
    }
