-- ===== src/Specs/Lookup.antt =====
-- Every model of the table is found.
use servo_fleet.Prelude.{
  ℕ, zero, suc, List, [], ◌∷◌, map, Option, none, some, get_elem?, ◌≡◌, refl, ap, subst, arith,
}
use servo_fleet.Specs.{MotorEcSpec, ec_motor_table, find_motor_ec_spec, find_spec, same_model}

head_eq : {A : Type 0} {x y : A} {xs ys : List A} → x ∷ xs ≡ y ∷ ys → x ≡ y
head_eq {x = x} e = ap (λ l. elim l [ [] ↦ x | h ∷ t ↦ h ]) e

tail_eq : {A : Type 0} {x y : A} {xs ys : List A} → x ∷ xs ≡ y ∷ ys → xs ≡ ys
tail_eq {xs = xs} e = ap (λ l. elim l [ [] ↦ xs | h ∷ t ↦ t ]) e

some_eq : {A : Type 0} {a b : A} → some a ≡ some b → a ≡ b
some_eq {a = a} e = ap (λ o. elim o [ none ↦ a | some x ↦ x ]) e

entry_of_map :
    {A : Type 0} (f : A → Option A) (xs : List A) (i : ℕ) (a : A)
    → map f xs ≡ map some xs
    → get_elem? xs i ≡ some a
    → f a ≡ some a
entry_of_map f [] i a e h = ground arith
entry_of_map f (x ∷ xs) zero a e h = subst (λ y. f y ≡ some y) (some_eq h) (head_eq e)
entry_of_map f (x ∷ xs) (suc i) a e h = entry_of_map f xs i a (tail_eq e) h

each_found :
    map (λ (s : MotorEcSpec). find_motor_ec_spec s.model) ec_motor_table ≡ map some ec_motor_table
unfolding find_motor_ec_spec find_spec same_model
each_found = refl

-- The search for the model of an entry of the table finds that entry: no model hides another, and
-- none is empty.
pub find_motor_ec_spec-entry :
    (i : ℕ) (spec : MotorEcSpec)
    → get_elem? ec_motor_table i ≡ some spec
    → find_motor_ec_spec spec.model ≡ some spec
find_motor_ec_spec-entry i spec h =
    entry_of_map (λ (s : MotorEcSpec). find_motor_ec_spec s.model) ec_motor_table i spec each_found
      h
