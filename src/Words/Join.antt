-- ===== src/Words/Join.antt =====
-- Two and four bytes joined, big-endian, by shifts and `|`.
use servo_fleet.Prelude.{ℕ, ◌+◌, ◌*◌, ◌<◌, ◌≡◌, ◌∙◌, ap, bit_or, arith}
use servo_fleet.Words.{shl32}
use servo_fleet.Words.Digits.{bit_or_fields}

pub pair_value : (b0 b1 : ℕ) → b0 < 256 → b1 < 256 → bit_or (shl32 b0 8) b1 ≡ b0 * 256 + b1
pair_value b0 b1 h0 h1 = ap (λ x. bit_or x b1) (omega arith) ∙ bit_or_fields 8 b0 b1 h1

pub quad_value :
    (b0 b1 b2 b3 : ℕ)
    → b0 < 256
    → b1 < 256
    → b2 < 256
    → b3 < 256
    → bit_or (bit_or (bit_or (shl32 b0 24) (shl32 b1 16)) (shl32 b2 8)) b3
      ≡ (b0 * 256 + b1) * 65536 + (b2 * 256 + b3)
quad_value b0 b1 b2 b3 h0 h1 h2 h3 = ground (
  arith,
  bit_or_fields 24 b0 (b1 * 65536) (omega arith),
  bit_or_fields 16 (b0 * 256 + b1) (b2 * 256) (omega arith),
  bit_or_fields 8 (b0 * 65536 + b1 * 256 + b2) b3 h3,
)
