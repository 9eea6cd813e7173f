-- ===== src/Floats/Whole.antt =====
-- Whole numbers in the place of floats and doubles: the laws can hold.
use servo_fleet.Prelude.{
  ℕ, zero, suc, ◌+◌, ◌-◌, ◌*◌, ◌/◌, ◌%◌, ◌^◌, ◌≤◌, ◌<◌, ◌≡◌, Bool, true, false, not, ltb,
  if◌then◌else◌, arith,
}
use servo_fleet.Floats.{ℤ, pos, negsuc, ltb_int, to_u16, Literal, Floats, IsFloats}

pub to_u16-le :
    (z : ℤ) (max : ℕ)
    → max < 2 ^ 16
    → ltb_int z (pos 0) ≡ false
    → ltb_int (pos max) z ≡ false
    → to_u16 z ≤ max
unfolding ltb_int
to_u16-le (pos n) max hm h k = ground arith
to_u16-le (negsuc n) max hm h k = ground arith

-- The number with this size, below 0 if `negative`.
abbrev signed : Bool → ℕ → ℤ
signed true (suc n) = negsuc n
signed true zero = pos 0
signed false n = pos n

abbrev size : ℤ → ℕ
size (pos n) = n
size (negsuc n) = suc n

abbrev is_negative : ℤ → Bool
is_negative (pos n) = false
is_negative (negsuc n) = true

abbrev different : Bool → Bool → Bool
different true b = not b
different false b = b

abbrev times : ℤ → ℤ → ℤ
times a b = signed (different (is_negative a) (is_negative b)) (size a * size b)

abbrev quotient : ℤ → ℤ → ℤ
quotient a b = signed (different (is_negative a) (is_negative b)) (size a / size b)

abbrev plus : ℤ → ℤ → ℤ
plus (pos a) (pos b) = pos (a + b)
plus (pos a) (negsuc b) = if ltb b a then pos (a - suc b) else signed true (suc b - a)
plus (negsuc a) (pos b) = if ltb a b then pos (b - suc a) else signed true (suc a - b)
plus (negsuc a) (negsuc b) = negsuc (suc (a + b))

abbrev minus : ℤ → ℤ → ℤ
minus a b = plus a (signed (not (is_negative b)) (size b))

abbrev scaled : ℕ → ℕ → ℕ
scaled digits zero = digits
scaled digits (suc places) = scaled (digits / 10) places

abbrev of_literal : Literal → ℤ
of_literal l = signed l.negative (scaled l.digits l.places)

instance abbrev pub whole_floats : Floats ℤ
whole_floats = record {
  Double = ℤ;
  widen = λ x. x;
  narrow = λ x. x;
  lit = of_literal;
  num = of_literal;
  fadd = plus;
  fsub = minus;
  fmul = times;
  fdiv = quotient;
  dadd = plus;
  dmul = times;
  ddiv = quotient;
  dlt = ltb_int;
  isfinite = λ x. true;
  round = λ x. x;
  llround = λ x. x;
  truncate = λ x. x;
  of_int = λ x. x;
  bits_to_f32 = pos;
  bits_of_f32 = λ x. size x % 2 ^ 32;
}

instance pub whole_floats-IsFloats : IsFloats ℤ
whole_floats-IsFloats = record {
  bits_of_f32-lt = λ x. omega arith;
  truncate-le = λ d max hm finite low high. to_u16-le d max hm low high;
}
