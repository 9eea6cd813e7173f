-- ===== src/Prelude/Copy.antt =====
-- `std::copy` into a buffer, and the bytes that it leaves.
use Prim.Native.Nat.{ℕ, zero, suc, ◌+◌, ◌<◌, ◌≤◌}
use mathlib.Core.Path.{sym, ◌≡◌, refl, ◌∙◌, ap}
use mathlib.Core.Logic.{◌⊎◌}
use mathlib.Core.List.{List, [], ◌∷◌, ◌++◌}
use native.Mathlib.Omega.{arith}
use servo_fleet.Prelude.Lists.{length, set, take, drop, length-set}

-- `std::copy` to `offset`.
unfoldable pub copy_into : List ℕ → ℕ → List ℕ → List ℕ
copy_into bytes offset [] = bytes
copy_into bytes offset (b ∷ bs) = copy_into (set bytes offset b) (offset + 1) bs

copy_into-cons :
    (b : ℕ) (p : List ℕ) (o : ℕ) (xs : List ℕ) → copy_into (b ∷ p) (suc o) xs ≡ b ∷ copy_into p o xs
unfolding copy_into
copy_into-cons b p o [] = refl
copy_into-cons b p o (x ∷ xs) =
    ap (λ k. copy_into (b ∷ set p o x) k xs) {y = suc (o + 1)} (omega arith)
    ∙ copy_into-cons b (set p o x) (o + 1) xs

-- A copy to the front of a buffer that is long enough replaces that front.
pub copy_into-front :
    (p xs : List ℕ) → length xs ≤ length p → copy_into p 0 xs ≡ xs ++ drop (length xs) p
unfolding copy_into
copy_into-front p [] h = refl
copy_into-front [] (x ∷ xs) h = absurd (omega arith)
copy_into-front (b ∷ p) (x ∷ xs) h =
    copy_into-cons x p 0 xs ∙ ap (◌∷◌ x) (copy_into-front p xs (omega arith))

pub copy_into-append :
    (p : List ℕ) (o : ℕ) (xs ys : List ℕ)
    → copy_into (copy_into p o xs) (o + length xs) ys ≡ copy_into p o (xs ++ ys)
unfolding copy_into
copy_into-append p o [] ys = ap (λ k. copy_into p k ys) (omega arith)
copy_into-append p o (x ∷ xs) ys =
    ap (λ k. copy_into (copy_into (set p o x) (o + 1) xs) k ys) {y = o + 1 + length xs}
      (omega arith)
    ∙ copy_into-append (set p o x) (o + 1) xs ys

-- The `n` bytes from `offset` on.
abbrev pub slice : List ℕ → ℕ → ℕ → List ℕ
slice bytes offset n = take n (drop offset bytes)

pub length-copy_into : (p : List ℕ) (o : ℕ) (xs : List ℕ) → length (copy_into p o xs) ≡ length p
unfolding copy_into
length-copy_into p o [] = refl
length-copy_into p o (x ∷ xs) = length-copy_into (set p o x) (o + 1) xs ∙ length-set p o x

slice-set_out :
    (p : List ℕ) (i v o n : ℕ) → (i < o) ⊎ (o + n ≤ i) → slice (set p i v) o n ≡ slice p o n
slice-set_out [] i v o n h = refl
slice-set_out (x ∷ p) i v zero zero h = refl
slice-set_out (x ∷ p) zero v zero (suc n) h = absurd (ground arith)
slice-set_out (x ∷ p) (suc i) v zero (suc n) h = ap (◌∷◌ x) (slice-set_out p i v 0 n (ground arith))
slice-set_out (x ∷ p) zero v (suc o) n h = refl
slice-set_out (x ∷ p) (suc i) v (suc o) n h = slice-set_out p i v o n (ground arith)

-- Bytes apart from the copied ones stay.
pub slice-copy_into_out :
    (p : List ℕ) (a : ℕ) (xs : List ℕ) (o n : ℕ)
    → (a + length xs ≤ o) ⊎ (o + n ≤ a)
    → slice (copy_into p a xs) o n ≡ slice p o n
unfolding copy_into
slice-copy_into_out p a [] o n h = refl
slice-copy_into_out p a (x ∷ xs) o n h =
    slice-copy_into_out (set p a x) (a + 1) xs o n (ground arith)
    ∙ slice-set_out p a x o n (ground arith)

take-append : (xs ys : List ℕ) → take (length xs) (xs ++ ys) ≡ xs
take-append [] ys = refl
take-append (x ∷ xs) ys = ap (◌∷◌ x) (take-append xs ys)

-- The copied bytes.
pub slice-copy_into_self :
    (p : List ℕ) (o : ℕ) (xs : List ℕ)
    → o + length xs ≤ length p
    → slice (copy_into p o xs) o (length xs) ≡ xs
slice-copy_into_self p zero xs h =
    ap (take (length xs)) (copy_into-front p xs (omega arith)) ∙ take-append xs _
slice-copy_into_self [] (suc o) [] h = refl
slice-copy_into_self [] (suc o) (x ∷ xs) h = absurd (omega arith)
slice-copy_into_self (b ∷ p) (suc o) xs h =
    ap (λ q. slice q (suc o) (length xs)) (copy_into-cons b p o xs)
    ∙ slice-copy_into_self p o xs (omega arith)

take-append-rest : (k : ℕ) (p : List ℕ) → take k p ++ drop (length (take k p)) p ≡ p
take-append-rest zero p = refl
take-append-rest (suc k) [] = refl
take-append-rest (suc k) (b ∷ p) = ap (◌∷◌ b) (take-append-rest k p)

length-take-le : (k : ℕ) (p : List ℕ) → length (take k p) ≤ length p
length-take-le zero p = omega arith
length-take-le (suc k) [] = omega arith
length-take-le (suc k) (b ∷ p) = omega (arith, length-take-le k p)

copy_into-kept_front :
    (k : ℕ) (p xs : List ℕ)
    → length xs ≤ k
    → length xs ≤ length p
    → copy_into p 0 (xs ++ drop (length xs) (take k p)) ≡ copy_into p 0 xs
unfolding copy_into
copy_into-kept_front k p [] h l =
    copy_into-front p (take k p) (length-take-le k p) ∙ take-append-rest k p
copy_into-kept_front zero p (x ∷ xs) h l = absurd (omega arith)
copy_into-kept_front (suc k) [] (x ∷ xs) h l = absurd (omega arith)
copy_into-kept_front (suc k) (b ∷ p) (x ∷ xs) h l =
    copy_into-cons x p 0 (xs ++ drop (length xs) (take k p))
    ∙ ap (◌∷◌ x) (copy_into-kept_front k p xs (omega arith) (omega arith))
    ∙ sym (copy_into-cons x p 0 xs)

-- Bytes that are copied to where they come from change nothing.
pub copy_into-kept :
    (k : ℕ) (p : List ℕ) (o : ℕ) (xs : List ℕ)
    → length xs ≤ k
    → o + length xs ≤ length p
    → copy_into p o (xs ++ drop (length xs) (slice p o k)) ≡ copy_into p o xs
copy_into-kept k p zero xs h l = copy_into-kept_front k p xs h (omega arith)
copy_into-kept zero [] (suc o) [] h l = refl
copy_into-kept (suc k) [] (suc o) [] h l = refl
copy_into-kept k [] (suc o) (x ∷ xs) h l = absurd (omega arith)
copy_into-kept k (b ∷ p) (suc o) xs h l =
    copy_into-cons b p o (xs ++ drop (length xs) (slice p o k))
    ∙ ap (◌∷◌ b) (copy_into-kept k p o xs h (omega arith))
    ∙ sym (copy_into-cons b p o xs)

pub length-slice : (p : List ℕ) (o k : ℕ) → o + k ≤ length p → length (slice p o k) ≡ k
length-slice p zero zero h = refl
length-slice [] zero (suc k) h = absurd (omega arith)
length-slice (b ∷ p) zero (suc k) h = ap suc (length-slice p zero k (omega arith))
length-slice [] (suc o) k h = absurd (omega arith)
length-slice (b ∷ p) (suc o) k h = length-slice p o k (omega arith)
