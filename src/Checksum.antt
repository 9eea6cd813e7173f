-- ===== src/Checksum.antt =====
-- src/checksum.cc: the CRC-16 with polynomial 0x1021 and initial value 0, computed eight bytes at a
-- time from eight tables. A table is a list of 256 entries; `constexpr` tables are constants here.
pub mod Serial
pub mod Tables
pub mod Slices
mod Tests
use servo_fleet.Prelude.{
  ℕ, zero, suc, ◌*◌, Bool, not, ◌==◌, if◌then◌else◌, List, [], ◌∷◌, get_or, tabulate, bit_and,
  bit_xor,
}
use servo_fleet.Words.{u8, u16, shl, shr}

abbrev pub crc16_ccitt_poly : ℕ
crc16_ccitt_poly = 0x1021

-- One round of the loop of `crc16_ccitt_table_entry`.
unfoldable pub entry_round : ℕ → ℕ
entry_round crc =
    if not (bit_and crc 0x8000 == 0)
    then u16 (bit_xor (shl crc 1) crc16_ccitt_poly)
    else u16 (shl crc 1)

unfoldable pub entry_rounds : ℕ → ℕ → ℕ
entry_rounds zero crc = crc
entry_rounds (suc n) crc = entry_rounds n (entry_round crc)

unfoldable pub crc16_ccitt_table_entry : ℕ → ℕ
unfolding entry_rounds entry_round
crc16_ccitt_table_entry index = entry_rounds 8 (u16 (shl index 8))

unfoldable pub crc16_ccitt_table : List ℕ
unfolding crc16_ccitt_table_entry
crc16_ccitt_table = tabulate 0 256 crc16_ccitt_table_entry

unfoldable pub crc16_ccitt_update : ℕ → ℕ → ℕ
unfolding crc16_ccitt_table
crc16_ccitt_update crc byte =
    let index = u8 (bit_xor (shr crc 8) byte) in
    u16 (bit_xor (shl crc 8) (get_or crc16_ccitt_table index 0))

unfoldable pub make_crc16_ccitt_slice_table : List ℕ → List ℕ
unfolding crc16_ccitt_update
make_crc16_ccitt_slice_table previous =
    tabulate 0 256 (λ index. crc16_ccitt_update (get_or previous index 0) 0)

-- `CRC16_CCITT_TABLE_1` to `CRC16_CCITT_TABLE_7`, and the first table at 0.
unfoldable pub slice_table : ℕ → List ℕ
unfolding make_crc16_ccitt_slice_table crc16_ccitt_table
slice_table zero = crc16_ccitt_table
slice_table (suc k) = make_crc16_ccitt_slice_table (slice_table k)

-- The checksum after the eight bytes of one round of the unrolled loop.
unfoldable pub slice_step : ℕ → (d0 d1 d2 d3 d4 d5 d6 d7 : ℕ) → ℕ
slice_step crc d0 d1 d2 d3 d4 d5 d6 d7 = u16 (
    bit_xor
      (bit_xor
        (bit_xor
          (bit_xor
            (bit_xor
              (bit_xor
                (bit_xor (get_or (slice_table 7) (u8 (bit_xor (shr crc 8) d0)) 0)
                  (get_or (slice_table 6) (u8 (bit_xor (bit_and crc 0xff) d1)) 0))
                (get_or (slice_table 5) d2 0))
              (get_or (slice_table 4) d3 0))
            (get_or (slice_table 3) d4 0))
          (get_or (slice_table 2) d5 0))
        (get_or (slice_table 1) d6 0))
      (get_or (slice_table 0) d7 0))

-- The second loop: byte by byte to the end. The list is `data[offset..size)`.
unfoldable pub update_rest : ℕ → List ℕ → ℕ
unfolding crc16_ccitt_update
update_rest crc [] = crc
update_rest crc (b ∷ bs) = update_rest (crc16_ccitt_update crc b) bs

-- The first loop, while eight bytes are left. The list is `data[offset..size)`.
unfoldable pub update_slices : ℕ → List ℕ → ℕ
unfolding slice_step update_rest
update_slices crc (d0 ∷ d1 ∷ d2 ∷ d3 ∷ d4 ∷ d5 ∷ d6 ∷ d7 ∷ bs) =
    update_slices (slice_step crc d0 d1 d2 d3 d4 d5 d6 d7) bs
update_slices crc bs = update_rest crc bs

unfoldable pub crc16_ccitt : List ℕ → ℕ
unfolding update_slices
crc16_ccitt bytes = update_slices 0 bytes
