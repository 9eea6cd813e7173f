-- ===== src/Runtime/Counting.antt =====
-- Strings compared, and entries counted.
use servo_fleet.Prelude.{
  ℕ, zero, suc, ◌<◌, ◌≤◌, Bool, true, List, [], ◌∷◌, get_elem?, some, ◌≡◌, refl, arith, ap, ap₂,
  Bool-cases, inl, inr,
}
use servo_fleet.Runtime.{string_eq, count_if, any_of}

pub string_eq_refl : (s : List ℕ) → string_eq s s ≡ true
unfolding string_eq
string_eq_refl [] = refl
string_eq_refl (x ∷ s) = ground (arith, string_eq_refl s)

pub string_eq_sound : (s t : List ℕ) → string_eq s t ≡ true → s ≡ t
unfolding string_eq
string_eq_sound [] [] h = refl
string_eq_sound [] (y ∷ t) h = ground arith
string_eq_sound (x ∷ s) [] h = ground arith
string_eq_sound (x ∷ s) (y ∷ t) h = ap₂ ◌∷◌ (ground arith) (string_eq_sound s t (ground arith))

-- An entry that passes is counted.
pub count_if-pos :
    {A : Type 0} (f : A → Bool) (xs : List A) (i : ℕ) (a : A)
    → get_elem? xs i ≡ some a
    → f a ≡ true
    → 0 < count_if f xs
unfolding count_if
count_if-pos f [] i a e h = ground arith
count_if-pos f (x ∷ xs) zero a e h = ground arith
count_if-pos f (x ∷ xs) (suc i) a e h = ground (arith, count_if-pos f xs i a e h)

-- Two entries that pass, where one is counted, stand at one place.
pub count_if_one :
    {A : Type 0} (f : A → Bool) (xs : List A) (i j : ℕ) (a b : A)
    → count_if f xs ≤ 1
    → get_elem? xs i ≡ some a
    → get_elem? xs j ≡ some b
    → f a ≡ true
    → f b ≡ true
    → i ≡ j
unfolding count_if
count_if_one f [] i j a b h ea eb fa fb = ground arith
count_if_one f (x ∷ xs) zero zero a b h ea eb fa fb = refl
count_if_one f (x ∷ xs) zero (suc j) a b h ea eb fa fb =
    absurd (ground (arith, count_if-pos f xs j b eb fb))
count_if_one f (x ∷ xs) (suc i) zero a b h ea eb fa fb =
    absurd (ground (arith, count_if-pos f xs i a ea fa))
count_if_one f (x ∷ xs) (suc i) (suc j) a b h ea eb fa fb =
    ap suc (count_if_one f xs i j a b (omega arith) ea eb fa fb)

pub any_of-true :
    {A : Type 0} (f : A → Bool) (xs : List A) (i : ℕ) (a : A)
    → get_elem? xs i ≡ some a
    → f a ≡ true
    → any_of f xs ≡ true
unfolding any_of
any_of-true f [] i a e h = ground arith
any_of-true f (x ∷ xs) zero a e h = ground arith
any_of-true f (x ∷ xs) (suc i) a e h = ground (arith, any_of-true f xs i a e h)

pub any_of-found :
    {A : Type 0} (f : A → Bool) (xs : List A)
    → any_of f xs ≡ true
    → (i : ℕ) × (a : A) × (get_elem? xs i ≡ some a) × (f a ≡ true)
unfolding any_of
any_of-found f [] h = ground arith
any_of-found f (x ∷ xs) h = elim (Bool-cases (f x)) [
  | inl here ↦ (0, x, refl, here)
  | inr there ↦ let (i, a, e, fa) = any_of-found f xs (ground arith) in (suc i, a, e, fa)
]
