-- ===== src/Runtime/Drivers.antt =====
-- The drivers that `init_drivers` of src/runtime.cc makes, and what `bind_motors` leaves of them.
use servo_fleet.Prelude.{
  ℕ, zero, suc, ◌≤◌, ◌≡◌, refl, ap, Bool, true, Bool-cases, inl, inr, List, [], ◌∷◌, get_or, set,
  Option, none, some, All, All-append,
}
use servo_fleet.Error.{FleetErr}
use servo_fleet.Specs.{MotorEcSpec, find_motor_ec_spec}
use servo_fleet.Channel.Realtime.{RealtimeUdpChannel}
use servo_fleet.Channel.Realtime.Queueing.{Ready}
use servo_fleet.Channel.Realtime.Start.{realtime_udp_channel-Ready, slots_of_opened}
use servo_fleet.Driver.{Routing, bind_motor}
use servo_fleet.Driver.Commanding.{IsAddress}
use servo_fleet.Runtime.{
  ChannelConfig, MotorConfig, FleetConfig, any_of, string_eq, drivers_for, find_driver_slot,
}
use servo_fleet.Runtime.Binding.{
  MotorDriver, Runtime, new_driver, no_driver, address_of, names, motor_driver, driver_first,
  make_drivers, bind_one, bind_motors,
}

-- Drivers with ready channels of `ns` slots, whose devices have valid addresses.
pub data AreReady : List ℕ → List MotorDriver → Type 0 where
  end : AreReady [] []
  more :
      (n : ℕ) (d : MotorDriver) {ns : List ℕ} {ds : List MotorDriver}
      → All IsAddress d.routing.devices
      → Ready n d.channel []
      → AreReady ns ds
      → AreReady (n ∷ ns) (d ∷ ds)

-- New drivers, of these names, none of which has a device.
pub record Made (ns : List (List ℕ)) (ds : List MotorDriver) : Type 0 where
  pub named : names ds ≡ ns
  pub blank : (slot : ℕ) → (get_or ds slot no_driver).routing.devices ≡ []
  pub slots : List ℕ
  pub ready : AreReady slots ds

-- The constructors throw, or the drivers are made.
abbrev pub MadeIfAny : List (List ℕ) → Option (List MotorDriver) → Type 0
MadeIfAny ns none = Unit {0}
MadeIfAny ns (some ds) = Made ns ds

Made-nil : Made [] []
Made-nil = record { named = refl; blank = λ slot. refl; slots = []; ready = end }

Made-cons :
    (name : List ℕ) (channel : RealtimeUdpChannel) (n : ℕ) (ns : List (List ℕ))
    (ds : List MotorDriver)
    → Ready n channel []
    → Made ns ds
    → Made (name ∷ ns) (new_driver name channel ∷ ds)
Made-cons name channel n ns ds r h = record {
  named = ap (◌∷◌ name) h.named;
  blank = λ slot. blank slot;
  slots = n ∷ h.slots;
  ready = more n (new_driver name channel) tt r h.ready;
}
  where
    blank : (slot : ℕ) → (get_or (new_driver name channel ∷ ds) slot no_driver).routing.devices ≡ []
    blank zero = refl
    blank (suc slot) = h.blank slot

driver_first-MadeIfAny :
    (opens : ChannelConfig → Bool) (self : ℕ) (channel : ChannelConfig) (ns : List (List ℕ))
    (rest : Option (List MotorDriver))
    → MadeIfAny ns rest
    → MadeIfAny (channel.name ∷ ns) (driver_first (motor_driver opens self channel) rest)
unfolding motor_driver
driver_first-MadeIfAny opens self channel ns rest h = elim (Bool-cases (opens channel)) [
  | inr shut ↦ rw shut tt
  | inl opened ↦ rw opened (elim (slots_of_opened self channel.send_queue_slots) [
    | inr large ↦ rw large tt
    | inl few ↦
        let (c, e, ready, empty, running) =
          realtime_udp_channel-Ready self channel.send_queue_slots few in
        rw e (step c ready rest h)
  ])
]
  where
    step :
        (c : RealtimeUdpChannel)
        → Ready channel.send_queue_slots c []
        → (rest : Option (List MotorDriver)) → MadeIfAny ns rest
        → MadeIfAny (channel.name ∷ ns) (driver_first (some (new_driver channel.name c)) rest)
    step c ready none h = tt
    step c ready (some ds) h = Made-cons channel.name c channel.send_queue_slots ns ds ready h

pub make_drivers-MadeIfAny :
    (opens : ChannelConfig → Bool) (options : FleetConfig) (self : ℕ)
    (channels : List ChannelConfig)
    → MadeIfAny (drivers_for options channels) (make_drivers opens options self channels)
unfolding make_drivers drivers_for
make_drivers-MadeIfAny opens options self [] = Made-nil
make_drivers-MadeIfAny opens options self (channel ∷ rest) =
    let later = make_drivers-MadeIfAny opens options (suc self) rest in
    elim (Bool-cases
      (any_of (λ (d : MotorConfig). string_eq d.channel channel.name) options.motors)) [
        | inl used ↦ rw used (driver_first-MadeIfAny opens self channel _ _ later)
        | inr unused ↦ rw unused later
      ]

-- The channel opens, and is asked for no more slots than a channel takes.
abbrev pub Opens : (ChannelConfig → Bool) → ChannelConfig → Type 0
Opens opens c = (opens c ≡ true) × (c.send_queue_slots ≤ 8388607)

-- If every channel opens, the drivers are made.
pub make_drivers-some :
    (opens : ChannelConfig → Bool) (options : FleetConfig) (self : ℕ)
    (channels : List ChannelConfig)
    → All (Opens opens) channels
    → (ds : List MotorDriver) × (make_drivers opens options self channels ≡ some ds)
unfolding make_drivers motor_driver
make_drivers-some opens options self [] h = ([], refl)
make_drivers-some opens options self (channel ∷ rest) h =
    let (ds, e) = make_drivers-some opens options (suc self) rest h.1 in
    elim (Bool-cases
      (any_of (λ (d : MotorConfig). string_eq d.channel channel.name) options.motors)) [
        | inl used ↦
            let (c, ec, ready, empty, running) =
              realtime_udp_channel-Ready self channel.send_queue_slots h.0.1 in
            rw (used, h.0.0, ec, e) (new_driver channel.name c ∷ ds, refl)
        | inr unused ↦ rw (unused, e) (ds, refl)
      ]

devices-at :
    {ns : List ℕ} {ds : List MotorDriver} (slot : ℕ)
    → AreReady ns ds
    → All IsAddress (get_or ds slot no_driver).routing.devices
devices-at slot end = tt
devices-at zero (more n d a r h) = a
devices-at (suc slot) (more n d a r h) = devices-at slot h

set-AreReady :
    {ns : List ℕ} {ds : List MotorDriver} (slot : ℕ) (routing : Routing)
    → All IsAddress routing.devices
    → AreReady ns ds
    → AreReady ns (set ds slot (record (get_or ds slot no_driver) { routing = routing }))
set-AreReady slot routing k end = end
set-AreReady zero routing k (more n d a r h) = more n (record d { routing = routing }) k r h
set-AreReady (suc slot) routing k (more n d a r h) = more n d a r (set-AreReady slot routing k h)

bind_one-AreReady :
    {ns : List ℕ} (r : Runtime) (config : MotorConfig) (slot : ℕ) (spec : MotorEcSpec)
    → IsAddress (address_of config)
    → AreReady ns r.motor_drivers
    → AreReady ns (bind_one r config slot spec).motor_drivers
unfolding bind_one bind_motor
bind_one-AreReady r config slot spec a h =
    set-AreReady slot _ (All-append _ _ _ (devices-at slot h) (a, tt)) h

-- A round of `bind_motors`, which stops if a search finds nothing.
abbrev or_refused :
    {A : Type 0} → Runtime → Option A → (A → FleetErr × Runtime) → FleetErr × Runtime
or_refused r o rest = elim o [ none ↦ (FleetErr.invalid_argument, r) | some a ↦ rest a ]

or_refused-AreReady :
    {A : Type 0} {ns : List ℕ} (r : Runtime) (o : Option A) (rest : A → FleetErr × Runtime)
    → AreReady ns r.motor_drivers
    → ((a : A) → AreReady ns (rest a).1.motor_drivers)
    → AreReady ns (or_refused r o rest).1.motor_drivers
or_refused-AreReady r none rest h k = h
or_refused-AreReady r (some a) rest h k = k a

pub bind_motors-AreReady :
    {ns : List ℕ} (motors : List MotorConfig) (r : Runtime)
    → All (λ c. IsAddress (address_of c)) motors
    → AreReady ns r.motor_drivers
    → AreReady ns (bind_motors motors r).1.motor_drivers
unfolding bind_motors
bind_motors-AreReady [] r a h = h
bind_motors-AreReady (config ∷ rest) r a h =
    or_refused-AreReady r (find_driver_slot (names r.motor_drivers) config.channel) _ h (λ slot.
      or_refused-AreReady r (find_motor_ec_spec config.model) _ h (λ spec.
        bind_motors-AreReady rest (bind_one r config slot spec) a.1
          (bind_one-AreReady r config slot spec a.0 h)))
