-- ===== src/Error.antt =====
-- include/fleet/device.h and src/error.h: the error codes, `result` and the two ways in which the
-- code chains fallible calls. `err_code` is a `FleetErr`: a default `std::error_code` and
-- `fleet_err::ok` both test false, and are `FleetErr.ok` here.
use servo_fleet.Prelude.{Bool, true, false, ◌≡◌, if◌then◌else◌}

pub data FleetErr : Type 0 where
  ok invalid_argument unsupported busy timeout cancelled io_error protocol_error device_error :
      FleetErr

-- `if (error)`.
abbrev pub is_error : FleetErr → Bool
is_error FleetErr.ok = false
is_error e = true

-- `std::expected<T, err_code>`.
pub data Result {ℓ} (A : Type ℓ) : Type ℓ where
  expected : A → Result A
  unexpected : FleetErr → Result A

infixl 5 ◌>>=◌
abbrev pub ◌>>=◌ {ℓ κ} : {A : Type ℓ} {B : Type κ} → Result A → (A → Result B) → Result B
expected a >>= f = f a
unexpected e >>= f = unexpected e

-- `transform`.
abbrev pub transform {ℓ κ} : {A : Type ℓ} {B : Type κ} → (A → B) → Result A → Result B
transform f (expected a) = expected (f a)
transform f (unexpected e) = unexpected e

-- A call that changes an object and returns an `err_code`.
abbrev pub Action : Type 0 → Type 0
Action S = S → FleetErr × S

-- What follows a call, if it did not fail.
abbrev pub and_then : {S : Type 0} → FleetErr × S → Action S → FleetErr × S
and_then (e, s) b = if is_error e then (e, s) else b s

-- `if (auto e = a) return e;` and then `b`.
infixl 5 ◌>>◌
abbrev pub ◌>>◌ : {S : Type 0} → Action S → Action S → Action S
◌>>◌ a b s = and_then (a s) b

pub >>-ok :
    {S : Type 0} (a b : Action S) (s : S) {t : S} → a s ≡ (FleetErr.ok, t) → (a >> b) s ≡ b t
>>-ok a b s e = rw e
