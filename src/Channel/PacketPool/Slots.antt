-- ===== src/Channel/PacketPool/Slots.antt =====
-- Who holds each slot: the pool as free, the pool as pending, or someone else.
use servo_fleet.Prelude.{
  ℕ, ◌+◌, ◌<◌, ◌==◌, ltb, if◌then◌else◌, List, [], ◌∷◌, ◌++◌, length, ◌≡◌, arith, length-append,
  ==-self,
}

-- How often a slot stands in a list.
unfoldable pub count_of : ℕ → List ℕ → ℕ
count_of x [] = 0
count_of x (y ∷ ys) = (if x == y then 1 else 0) + count_of x ys

-- Of the `slots` slots each is free, pending or held, and only one of these, and only once.
pub record Split (slots : ℕ) (free pending held : List ℕ) : Type 0 where
  pub total : length free + length pending + length held ≡ slots
  pub once :
      (x : ℕ)
      → count_of x free + count_of x pending + count_of x held ≡ (if ltb x slots then 1 else 0)

pub count_of-append :
    (x : ℕ) (xs ys : List ℕ) → count_of x (xs ++ ys) ≡ count_of x xs + count_of x ys
unfolding count_of
count_of-append x [] ys = omega arith
count_of-append x (y ∷ xs) ys = omega (arith, count_of-append x xs ys)

module _ {n : ℕ} (slot : ℕ) (f p h : List ℕ) where
  pub held_to_free : Split n f p (slot ∷ h) → Split n (f ++ (slot ∷ [])) p h
  unfolding count_of
  held_to_free s = record {
    total = omega (arith, s.total, length-append f (slot ∷ []));
    once = λ x. omega (arith, s.once x, count_of-append x f (slot ∷ []));
  }

  pub held_to_pending : Split n f p (slot ∷ h) → Split n f (p ++ (slot ∷ [])) h
  unfolding count_of
  held_to_pending s = record {
    total = omega (arith, s.total, length-append p (slot ∷ []));
    once = λ x. omega (arith, s.once x, count_of-append x p (slot ∷ []));
  }

  pub free_to_held : Split n (slot ∷ f) p h → Split n f p (slot ∷ h)
  unfolding count_of
  free_to_held s = record { total = omega (arith, s.total); once = λ x. omega (arith, s.once x) }

  pub pending_to_held : Split n f (slot ∷ p) h → Split n f p (slot ∷ h)
  unfolding count_of
  pending_to_held s = record { total = omega (arith, s.total); once = λ x. omega (arith, s.once x) }

-- A held slot is none of the pending ones.
pub held_apart :
    {n : ℕ} (slot : ℕ) (f p h : List ℕ)
    → Split n f p (slot ∷ h)
    → (slot < n) × (count_of slot p ≡ 0) × (count_of slot f ≡ 0)
unfolding count_of
held_apart {n} slot f p h s = ground (arith, s.once slot, ==-self slot)
