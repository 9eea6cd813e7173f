-- ===== src/Floats.antt =====
-- The floating-point operations that the code calls, on a type `F` of floats and one of doubles. They
-- are the language's; what the theorems use of them is in `IsFloats`.
pub mod Whole
use servo_fleet.Prelude.{
  if◌then◌else◌, ℕ, ◌+◌, ◌-◌, ◌%◌, ◌≤◌, ◌<◌, ◌^◌, Bool, true, false, ltb, ◌≡◌,
}

-- A signed integer, under the library's names: `negsuc n` is `-(n + 1)`.
pub data ℤ : Type 0 where
  pos negsuc : ℕ → ℤ

unfoldable pub ltb_int : ℤ → ℤ → Bool
ltb_int (pos a) (pos b) = ltb a b
ltb_int (pos a) (negsuc b) = false
ltb_int (negsuc a) (pos b) = true
ltb_int (negsuc a) (negsuc b) = ltb b a

-- `static_cast<uint16_t>`: the low 16 bits of the two's complement.
abbrev pub to_u16 : ℤ → ℕ
to_u16 (pos n) = n % 2 ^ 16
to_u16 (negsuc n) = 2 ^ 16 - 1 - n % 2 ^ 16

-- `static_cast<int16_t>` of a `uint16_t`.
abbrev pub to_i16 : ℕ → ℤ
to_i16 n = if ltb n 0x8000 then pos n else negsuc (0xffff - n)

-- A decimal literal of the source: `digits / 10 ^ places`, and its negative.
pub record Literal : Type 0 where
  pub negative : Bool
  pub digits : ℕ
  pub places : ℕ

abbrev pub literal : ℕ → ℕ → Literal
literal digits places = record { negative = false; digits = digits; places = places }

abbrev pub neg_literal : ℕ → ℕ → Literal
neg_literal digits places = record { negative = true; digits = digits; places = places }

pub record Floats (F : Type 0) : Type 1 where
  pub Double : Type 0
  -- `static_cast` between the two
  pub widen : F → Double
  pub narrow : Double → F
  pub lit : Literal → F
  pub num : Literal → Double
  pub fadd : F → F → F
  pub fsub : F → F → F
  pub fmul : F → F → F
  pub fdiv : F → F → F
  pub dadd : Double → Double → Double
  pub dmul : Double → Double → Double
  pub ddiv : Double → Double → Double
  pub dlt : Double → Double → Bool
  pub isfinite : Double → Bool
  pub round : Double → Double
  pub llround : Double → ℤ
  -- `static_cast` to an integer, which drops the fraction
  pub truncate : Double → ℤ
  pub of_int : ℤ → F
  pub bits_to_f32 : ℕ → F
  pub bits_of_f32 : F → ℕ

-- A float has 32 bits, and a finite double that rounds to no less than 0 and no more than a bound
-- below 2 ^ 16 is an integer in that range once it is rounded.
pub record IsFloats (F : Type 0) ⦃fl : Floats F⦄ : Type 0 where
  pub bits_of_f32-lt : (x : F) → fl.bits_of_f32 x < 2 ^ 32
  pub truncate-le :
      (d : fl.Double) (max : ℕ)
      → max < 2 ^ 16
      → fl.isfinite d ≡ true
      → fl.dlt (fl.round d) (fl.num (literal 0 0)) ≡ false
      → fl.dlt (fl.num (literal max 0)) (fl.round d) ≡ false
      → to_u16 (fl.truncate (fl.round d)) ≤ max
