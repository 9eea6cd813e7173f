-- ===== src/Driver/Routes.antt =====
-- The routes are a finite map from addresses to devices.
use servo_fleet.Prelude.{
  ℕ, zero, suc, ◌+◌, ◌-◌, ◌==◌, ◌≤◌, ltb, ◌&&◌, if◌then◌else◌, List, [], ◌∷◌, ◌++◌, length, set,
  get_or, replicate, Option, none, some, ◌≡◌, ◌≢◌, refl, arith, ap, ◌∙◌, sym, length-append,
  length-replicate, Bool-cases, inl, inr, get_or-set_self, get_or-set_ne, true, ==_iff,
}
use servo_fleet.CanFrame.{CanAddr}
use servo_fleet.Driver.{Routing, bind_motor, route_of, resize_to}

get_or-past {ℓ} : {A : Type ℓ} (xs : List A) (i : ℕ) (a : A) → length xs ≤ i → get_or xs i a ≡ a
get_or-past [] i a h = refl
get_or-past (x ∷ xs) zero a h = absurd (omega arith)
get_or-past (x ∷ xs) (suc i) a h = get_or-past xs i a (omega arith)

-- The guard of `handle_frame` answers as the entry of the table would.
route_of-eq :
    (d : Routing) (port id : ℕ)
    → route_of d port id ≡ get_or (get_or d.motor_routes port []) id none
unfolding route_of
route_of-eq d port id =
    ground (
      arith,
      get_or-past d.motor_routes port [],
      get_or-past (get_or d.motor_routes port []) id none,
    )

get_or-extended {ℓ} :
    {A : Type ℓ} (xs : List A) (n i : ℕ) (a : A) → get_or (xs ++ replicate n a) i a ≡ get_or xs i a
get_or-extended [] zero i a = refl
get_or-extended [] (suc n) zero a = refl
get_or-extended [] (suc n) (suc i) a = get_or-extended [] n i a
get_or-extended (x ∷ xs) n zero a = refl
get_or-extended (x ∷ xs) n (suc i) a = get_or-extended xs n i a

get_or-resize_to {ℓ} :
    {A : Type ℓ} (xs : List A) (n i : ℕ) (a : A) → get_or (resize_to xs n a) i a ≡ get_or xs i a
unfolding resize_to
get_or-resize_to xs n i a = elim (Bool-cases (ltb (length xs) n)) [
  | inl short ↦ rw (short, resize_to) (get_or-extended xs (n - length xs) i a)
  | inr long ↦ rw (long, resize_to) refl
]

le-length-resize_to {ℓ} : {A : Type ℓ} (xs : List A) (n : ℕ) (a : A) → n ≤ length (resize_to xs n a)
unfolding resize_to
le-length-resize_to xs n a = elim (Bool-cases (ltb (length xs) n)) [
  | inl short ↦
      rw (short, resize_to, length-append xs (replicate (n - length xs) a))
        (omega (arith, length-replicate (n - length xs) a))
  | inr long ↦ rw (long, resize_to) (ground arith)
]

-- A table with entry `n` written, once it is long enough.
abbrev put {ℓ} : {A : Type ℓ} → List A → ℕ → A → A → List A
put xs n v a = set (resize_to xs (n + 1) a) n v

get_or-put_self {ℓ} : {A : Type ℓ} (xs : List A) (n : ℕ) (v a : A) → get_or (put xs n v a) n a ≡ v
get_or-put_self xs n v a =
    get_or-set_self (resize_to xs (n + 1) a) n v a (omega (arith, le-length-resize_to xs (n + 1) a))

get_or-put_ne {ℓ} :
    {A : Type ℓ} (xs : List A) (n i : ℕ) (v a : A)
    → n ≢ i
    → get_or (put xs n v a) i a ≡ get_or xs i a
get_or-put_ne xs n i v a ne =
    get_or-set_ne (resize_to xs (n + 1) a) n i v a ne ∙ get_or-resize_to xs (n + 1) i a

get_or-put {ℓ} :
    {A : Type ℓ} (xs : List A) (n i : ℕ) (v a : A)
    → get_or (put xs n v a) i a ≡ (if i == n then v else get_or xs i a)
get_or-put xs n i v a = elim (Bool-cases (i == n)) [
  | inl same ↦
      rw same (ap (λ j. get_or (put xs n v a) j a) ((==_iff i n).0 same) ∙ get_or-put_self xs n v a)
  | inr other ↦ rw other (get_or-put_ne xs n i v a (λ e. ground arith))
]

-- Binding a motor routes its address to it, in the next free slot, and no other address anywhere
-- else than before, whatever the tables held.
pub route_of-bind_motor :
    (d : Routing) (address : CanAddr) (port id : ℕ)
    → route_of (bind_motor d address).1 port id ≡ (
        if port == address.can_port && id == address.can_id
        then some (length d.devices)
        else route_of d port id)
unfolding bind_motor
route_of-bind_motor d address port id =
    route_of-eq (bind_motor d address).1 port id
    ∙ rw (route_of-eq d port id) (elim (Bool-cases (port == address.can_port)) [
      | inl same ↦ rw same (
          ap (λ r. get_or r id none) (at_port same)
          ∙ get_or-put old_port address.can_id id (some (length d.devices)) none
          ∙ ap (λ o. if id == address.can_id then some (length d.devices) else o) (old same))
      | inr other ↦ rw other (
          ap (λ r. get_or r id none)
            (get_or-put_ne d.motor_routes address.can_port port _ [] (λ e. ground arith)))
    ])
  where
    old_port : List (Option ℕ)
    old_port = get_or (resize_to d.motor_routes (address.can_port + 1) []) address.can_port []

    at_port :
        (port == address.can_port) ≡ true
        → get_or (bind_motor d address).1.motor_routes port []
          ≡ put old_port address.can_id (some (length d.devices)) none
    at_port same =
        ap (λ j. get_or (bind_motor d address).1.motor_routes j [])
          ((==_iff port address.can_port).0 same)
        ∙ get_or-put_self d.motor_routes address.can_port _ []

    old :
        (port == address.can_port) ≡ true
        → get_or old_port id none ≡ get_or (get_or d.motor_routes port []) id none
    old same =
        ap (λ r. get_or r id none)
          (get_or-resize_to d.motor_routes (address.can_port + 1) address.can_port []
            ∙ ap (λ j. get_or d.motor_routes j []) (sym ((==_iff port address.can_port).0 same)))
