-- ===== src/Checksum/Serial.antt =====
-- The textbook CRC, bit by bit, and its linearity.
use servo_fleet.Prelude.{
  ℕ, zero, suc, ◌*◌, ◌/◌, ◌%◌, ◌<◌, ◌≡◌, refl, List, [], ◌∷◌, length, bit_xor, bit_and, arith, sym,
  ◌⊎◌, inl, inr,
}
use servo_fleet.Words.{AreBytes}
use servo_fleet.Words.Digits.{bit_and_fields, bit_and-zero, bit_xor_step}
use servo_fleet.Words.Xor.{
  bit_xor_fields, bit_xor-lt, bit_xor_medial, bit_xor-zero, bit_xor_comm, bit_xor_assoc,
}
use servo_fleet.Checksum.{entry_round, entry_rounds}

-- A byte is added to the top of the register, which then takes eight rounds.
unfoldable pub crc_byte : ℕ → ℕ → ℕ
crc_byte crc byte = entry_rounds 8 (bit_xor crc (byte * 256))

unfoldable pub crc_serial : ℕ → List ℕ → ℕ
crc_serial crc [] = crc
crc_serial crc (b ∷ bs) = crc_serial (crc_byte crc b) bs

top_bit : (a : ℕ) → a < 65536 → bit_and a 0x8000 ≡ bit_and (a / 32768) 1 * 32768
top_bit a h = ground (
  arith,
  bit_and_fields 15 (a / 32768) (a % 32768) 1 0 (omega arith) (omega arith),
  bit_and-zero (a % 32768),
)

digit_cases : (t : ℕ) → t < 2 → (t ≡ 0) ⊎ (t ≡ 1)
digit_cases t h = omega arith

-- One round as arithmetic: a shift, and the polynomial when the top bit falls out.
round_form : (a : ℕ) → a < 65536 → entry_round a ≡ bit_xor (2 * (a % 32768)) (a / 32768 * 0x1021)
unfolding entry_round
round_form a h = elim (digit_cases (a / 32768) (omega arith)) [
  | inl e ↦ ground (arith, top_bit a h, bit_and-zero 0, bit_xor-zero (2 * (a % 32768)))
  | inr e ↦ ground (
    arith,
    top_bit a h,
    bit_xor_fields 16 1 (2 * (a % 32768)) 0 0x1021 (omega arith) (omega arith),
    bit_xor-lt 16 (2 * (a % 32768)) 0x1021 (omega arith) (omega arith),
  )
]

pub entry_round-lt : (a : ℕ) → entry_round a < 65536
unfolding entry_round
entry_round-lt a = ground arith

double_xor : (a b : ℕ) → 2 * bit_xor a b ≡ bit_xor (2 * a) (2 * b)
double_xor a b = ground (arith, bit_xor_step (2 * a) (2 * b))

poly_xor : (s t : ℕ) → s < 2 → t < 2 → bit_xor s t * 0x1021 ≡ bit_xor (s * 0x1021) (t * 0x1021)
poly_xor zero zero hs ht = refl
poly_xor zero (suc zero) hs ht = refl
poly_xor (suc zero) zero hs ht = refl
poly_xor (suc zero) (suc zero) hs ht = refl
poly_xor zero (suc (suc t)) hs ht = absurd (omega arith)
poly_xor (suc zero) (suc (suc t)) hs ht = absurd (omega arith)
poly_xor (suc (suc s)) t hs ht = absurd (omega arith)

entry_round-xor :
    (a b : ℕ)
    → a < 65536
    → b < 65536
    → entry_round (bit_xor a b) ≡ bit_xor (entry_round a) (entry_round b)
entry_round-xor a b ha hb = ground (
  arith,
  round_form a ha,
  round_form b hb,
  bit_xor-lt 16 a b ha hb,
  round_form (bit_xor a b),
  bit_xor_fields 15 (a / 32768) (a % 32768) (b / 32768) (b % 32768) (omega arith) (omega arith),
  bit_xor-lt 15 (a % 32768) (b % 32768) (omega arith) (omega arith),
  poly_xor (a / 32768) (b / 32768) (omega arith) (omega arith),
  double_xor (a % 32768) (b % 32768),
  bit_xor_medial (2 * (a % 32768)) (a / 32768 * 0x1021) (2 * (b % 32768)) (b / 32768 * 0x1021),
)

pub entry_rounds-lt : (n a : ℕ) → a < 65536 → entry_rounds n a < 65536
unfolding entry_rounds
entry_rounds-lt zero a h = h
entry_rounds-lt (suc n) a h = entry_rounds-lt n (entry_round a) (entry_round-lt a)

-- Any number of rounds is linear.
pub entry_rounds-xor :
    (n a b : ℕ)
    → a < 65536
    → b < 65536
    → entry_rounds n (bit_xor a b) ≡ bit_xor (entry_rounds n a) (entry_rounds n b)
unfolding entry_rounds
entry_rounds-xor zero a b ha hb = refl
entry_rounds-xor (suc n) a b ha hb =
    rw (entry_round-xor a b ha hb)
      (entry_rounds-xor n (entry_round a) (entry_round b) (entry_round-lt a) (entry_round-lt b))

pub entry_rounds-zero : (n : ℕ) → entry_rounds n 0 ≡ 0
unfolding entry_rounds entry_round
entry_rounds-zero zero = refl
entry_rounds-zero (suc n) = entry_rounds-zero n

-- While no bit reaches the top, a round is a shift.
entry_round_small : (a : ℕ) → a < 32768 → entry_round a ≡ 2 * a
entry_round_small a h = ground (arith, round_form a, bit_xor-zero (2 * a))

pub entry_rounds_low : (a : ℕ) → a < 256 → entry_rounds 8 a ≡ a * 256
unfolding entry_rounds
entry_rounds_low a h =
    simp
      (
        entry_round_small a (omega arith),
        entry_round_small (2 * a) (omega arith),
        entry_round_small (2 * (2 * a)) (omega arith),
        entry_round_small (2 * (2 * (2 * a))) (omega arith),
        entry_round_small (2 * (2 * (2 * (2 * a)))) (omega arith),
        entry_round_small (2 * (2 * (2 * (2 * (2 * a))))) (omega arith),
        entry_round_small (2 * (2 * (2 * (2 * (2 * (2 * a)))))) (omega arith),
        entry_round_small (2 * (2 * (2 * (2 * (2 * (2 * (2 * a))))))) (omega arith),
      )
      (omega arith)

pub crc_byte-lt : (crc b : ℕ) → crc < 65536 → b < 256 → crc_byte crc b < 65536
unfolding crc_byte
crc_byte-lt crc b h hb = entry_rounds-lt 8 _ (bit_xor-lt 16 crc (b * 256) h (omega arith))

-- `n` bytes of rounds.
unfoldable pub advance : ℕ → ℕ → ℕ
advance zero a = a
advance (suc n) a = advance n (entry_rounds 8 a)

pub advance-suc : (n a : ℕ) → advance (suc n) a ≡ entry_rounds 8 (advance n a)
unfolding advance
advance-suc zero a = refl
advance-suc (suc n) a = advance-suc n (entry_rounds 8 a)

pub advance-lt : (n a : ℕ) → a < 65536 → advance n a < 65536
unfolding advance
advance-lt zero a h = h
advance-lt (suc n) a h = advance-lt n _ (entry_rounds-lt 8 a h)

pub advance-xor :
    (n a b : ℕ)
    → a < 65536
    → b < 65536
    → advance n (bit_xor a b) ≡ bit_xor (advance n a) (advance n b)
unfolding advance
advance-xor zero a b ha hb = refl
advance-xor (suc n) a b ha hb =
    rw (entry_rounds-xor 8 a b ha hb)
      (advance-xor n _ _ (entry_rounds-lt 8 a ha) (entry_rounds-lt 8 b hb))

crc_byte-zero-lt : (b : ℕ) → b < 256 → crc_byte 0 b < 65536
crc_byte-zero-lt b hb = crc_byte-lt 0 b (omega arith) hb

crc_byte-split :
    (crc b : ℕ)
    → crc < 65536
    → b < 256
    → crc_byte crc b ≡ bit_xor (entry_rounds 8 crc) (crc_byte 0 b)
unfolding crc_byte
crc_byte-split crc b h hb = cc (
  entry_rounds-xor 8 crc (b * 256) h (omega arith),
  bit_xor_comm 0 (b * 256),
  bit_xor-zero (b * 256),
)

-- The register and the message contribute separately.
pub crc_serial-split :
    (crc : ℕ) (bs : List ℕ)
    → crc < 65536
    → AreBytes bs
    → crc_serial crc bs ≡ bit_xor (advance (length bs) crc) (crc_serial 0 bs)
unfolding crc_serial advance
crc_serial-split crc [] h hb = sym (bit_xor-zero crc)
crc_serial-split crc (b ∷ bs) h hb = cc (
  crc_serial-split (crc_byte crc b) bs (crc_byte-lt crc b h hb.0) hb.1,
  crc_serial-split (crc_byte 0 b) bs (crc_byte-zero-lt b hb.0) hb.1,
  crc_byte-split crc b h hb.0,
  advance-xor (length bs) (entry_rounds 8 crc) (crc_byte 0 b) (entry_rounds-lt 8 crc h)
      (crc_byte-zero-lt b hb.0),
  bit_xor_assoc (advance (length bs) (entry_rounds 8 crc)) (advance (length bs) (crc_byte 0 b))
      (crc_serial 0 bs),
)

pub crc_serial-lt : (crc : ℕ) (bs : List ℕ) → crc < 65536 → AreBytes bs → crc_serial crc bs < 65536
unfolding crc_serial
crc_serial-lt crc [] h hb = h
crc_serial-lt crc (b ∷ bs) h hb = crc_serial-lt (crc_byte crc b) bs (crc_byte-lt crc b h hb.0) hb.1

-- The message's part of a byte is its distance from the end in rounds.
pub crc_serial-cons :
    (b : ℕ) (bs : List ℕ)
    → AreBytes (b ∷ bs)
    → crc_serial 0 (b ∷ bs) ≡ bit_xor (advance (suc (length bs)) (b * 256)) (crc_serial 0 bs)
unfolding crc_serial advance crc_byte
crc_serial-cons b bs hb = cc (
  crc_serial-split (crc_byte 0 b) bs (crc_byte-zero-lt b hb.0) hb.1,
  bit_xor_comm 0 (b * 256),
  bit_xor-zero (b * 256),
)
