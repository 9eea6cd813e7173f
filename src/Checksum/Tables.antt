-- ===== src/Checksum/Tables.antt =====
-- The entries of the eight tables, and the byte-wise update they serve.
use servo_fleet.Prelude.{
  ℕ, zero, suc, ◌*◌, ◌+◌, ◌/◌, ◌%◌, ◌<◌, ◌≡◌, ◌∙◌, ap, sym, arith, List, get_or, get_or-tabulate,
  bit_xor,
}
use servo_fleet.Words.Xor.{bit_xor_fields, bit_xor-lt, bit_xor-zero, bit_xor_comm}
use servo_fleet.Checksum.{
  entry_rounds, crc16_ccitt_table_entry, crc16_ccitt_table, crc16_ccitt_update,
  make_crc16_ccitt_slice_table, slice_table,
}
use servo_fleet.Checksum.Serial.{
  crc_byte, advance, advance-suc, advance-lt, entry_rounds-xor, entry_rounds-lt, entry_rounds_low,
}

table_entry : (i : ℕ) → i < 256 → get_or crc16_ccitt_table i 0 ≡ entry_rounds 8 (i * 256)
unfolding crc16_ccitt_table
table_entry i h = get_or-tabulate 0 256 i crc16_ccitt_table_entry 0 h ∙ whole
  where
    whole : crc16_ccitt_table_entry (0 + i) ≡ entry_rounds 8 (i * 256)
    whole = ap (entry_rounds 8) (omega arith)

pub high_xor_low : (t lo : ℕ) → lo < 256 → bit_xor (t * 256) lo ≡ t * 256 + lo
high_xor_low t lo h = ground (
  arith,
  bit_xor_fields 8 t 0 0 lo (omega arith) h,
  bit_xor-zero t,
  bit_xor_comm 0 lo,
  bit_xor-zero lo,
)

high_low_split :
    (hi lo b : ℕ) → lo < 256 → bit_xor (hi * 256 + lo) (b * 256) ≡ bit_xor (bit_xor hi b * 256) lo
high_low_split hi lo b h = ground (
  arith,
  bit_xor_fields 8 hi lo b 0 h (omega arith),
  bit_xor-zero lo,
  high_xor_low (bit_xor hi b) lo h,
)

-- The part of the register that a look-up leaves.
look_up :
    (hi lo t : ℕ)
    → lo < 256
    → t < 65536
    → bit_xor ((hi * 256 + lo) * 256) t % 65536 ≡ bit_xor t (lo * 256)
look_up hi lo t hl ht = ground (
  arith,
  bit_xor_fields 16 hi (lo * 256) 0 t (omega arith) ht,
  bit_xor-lt 16 (lo * 256) t (omega arith) ht,
  bit_xor_comm (lo * 256) t,
)

update_parts :
    (hi lo b : ℕ)
    → hi < 256
    → lo < 256
    → b < 256
    → crc16_ccitt_update (hi * 256 + lo) b ≡ crc_byte (hi * 256 + lo) b
unfolding crc16_ccitt_update crc_byte
update_parts hi lo b hh hl hb = ground (
  arith,
  bit_xor-lt 8 hi b hh hb,
  table_entry (bit_xor hi b),
  look_up hi lo (entry_rounds 8 (bit_xor hi b * 256)) hl,
  entry_rounds-lt 8 (bit_xor hi b * 256),
  high_low_split hi lo b hl,
  entry_rounds-xor 8 (bit_xor hi b * 256) lo,
  entry_rounds_low lo hl,
)

-- A table look-up is the eight rounds of the byte added to the register.
pub update-eq-crc_byte :
    (crc b : ℕ) → crc < 65536 → b < 256 → crc16_ccitt_update crc b ≡ crc_byte crc b
update-eq-crc_byte crc b h hb =
    ground (arith, update_parts (crc / 256) (crc % 256) b (omega arith) (omega arith) hb)

update-zero : (a : ℕ) → a < 65536 → crc16_ccitt_update a 0 ≡ entry_rounds 8 a
update-zero a h = update-eq-crc_byte a 0 h (omega arith) ∙ unfold crc_byte in rw (bit_xor-zero a)

next_entry :
    (previous : List ℕ) (i k : ℕ)
    → i < 256
    → get_or previous i 0 ≡ advance (suc k) (i * 256)
    → get_or (make_crc16_ccitt_slice_table previous) i 0 ≡ advance (suc (suc k)) (i * 256)
unfolding make_crc16_ccitt_slice_table
next_entry previous i k h e =
    get_or-tabulate 0 256 i (λ j. crc16_ccitt_update (get_or previous j 0) 0) 0 h
    ∙ ap (λ j. crc16_ccitt_update (get_or previous j 0) 0) (omega arith)
    ∙ ap (λ a. crc16_ccitt_update a 0) e
    ∙ update-zero (advance (suc k) (i * 256)) (advance-lt (suc k) (i * 256) (omega arith))
    ∙ sym (advance-suc (suc k) (i * 256))

-- Table `k` holds what a byte contributes `k` bytes further on.
pub slice_table_entry : (k i : ℕ) → i < 256 → get_or (slice_table k) i 0 ≡ advance (suc k) (i * 256)
unfolding slice_table
slice_table_entry zero i h = unfold advance in table_entry i h
slice_table_entry (suc k) i h = next_entry (slice_table k) i k h (slice_table_entry k i h)
