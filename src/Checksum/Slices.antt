-- ===== src/Checksum/Slices.antt =====
-- The unrolled loop against the textbook CRC.
use servo_fleet.Prelude.{
  ℕ, suc, ◌*◌, ◌+◌, ◌/◌, ◌%◌, ◌<◌, ◌≡◌, refl, ◌∙◌, ap, sym, arith, List, [], ◌∷◌, ◌++◌, get_or,
  bit_xor,
}
use native.Mathlib.Nat.{mod-eq_of_lt}
use servo_fleet.Words.{u8, u16, AreBytes}
use servo_fleet.Words.Digits.{bit_and_mask}
use servo_fleet.Words.Xor.{bit_xor_fields, bit_xor-lt, bit_xor-zero, bit_xor_assoc, bit_xor_medial}
use servo_fleet.Checksum.{slice_table, slice_step, update_rest, update_slices, crc16_ccitt}
use servo_fleet.Checksum.Serial.{
  crc_byte, crc_serial, advance, advance-xor, crc_serial-split, crc_serial-cons, crc_serial-lt,
  crc_byte-lt, entry_rounds_low,
}
use servo_fleet.Checksum.Tables.{slice_table_entry, update-eq-crc_byte, high_xor_low}

crc_serial-nil : (crc : ℕ) → crc_serial crc [] ≡ crc
unfolding crc_serial
crc_serial-nil crc = refl

-- Eight bytes from a zero register, each in its place.
crc_serial_eight :
    (d0 d1 d2 d3 d4 d5 d6 d7 : ℕ)
    → AreBytes (d0 ∷ d1 ∷ d2 ∷ d3 ∷ d4 ∷ d5 ∷ d6 ∷ d7 ∷ [])
    → crc_serial 0 (d0 ∷ d1 ∷ d2 ∷ d3 ∷ d4 ∷ d5 ∷ d6 ∷ d7 ∷ [])
      ≡ bit_xor (advance 8 (d0 * 256)) (
          bit_xor (advance 7 (d1 * 256)) (
            bit_xor (advance 6 (d2 * 256)) (
              bit_xor (advance 5 (d3 * 256)) (
                bit_xor (advance 4 (d4 * 256)) (
                  bit_xor
                    (advance 3 (d5 * 256))
                    (bit_xor (advance 2 (d6 * 256)) (advance 1 (d7 * 256))))))))
crc_serial_eight d0 d1 d2 d3 d4 d5 d6 d7 h = cc (
  crc_serial-cons d0 (d1 ∷ d2 ∷ d3 ∷ d4 ∷ d5 ∷ d6 ∷ d7 ∷ []) h,
  crc_serial-cons d1 (d2 ∷ d3 ∷ d4 ∷ d5 ∷ d6 ∷ d7 ∷ []) h.1,
  crc_serial-cons d2 (d3 ∷ d4 ∷ d5 ∷ d6 ∷ d7 ∷ []) h.1.1,
  crc_serial-cons d3 (d4 ∷ d5 ∷ d6 ∷ d7 ∷ []) h.1.1.1,
  crc_serial-cons d4 (d5 ∷ d6 ∷ d7 ∷ []) h.1.1.1.1,
  crc_serial-cons d5 (d6 ∷ d7 ∷ []) h.1.1.1.1.1,
  crc_serial-cons d6 (d7 ∷ []) h.1.1.1.1.1.1,
  crc_serial-cons d7 ([]) h.1.1.1.1.1.1.1,
  crc_serial-nil 0,
  bit_xor-zero (advance 1 (d7 * 256)),
)

-- The register's two bytes are added to the first two bytes of the message.
advance_register :
    (hi lo : ℕ)
    → hi < 256
    → lo < 256
    → advance 8 (hi * 256 + lo) ≡ bit_xor (advance 8 (hi * 256)) (advance 7 (lo * 256))
advance_register hi lo hh hl =
    ap (advance 8) (sym (high_xor_low hi lo hl))
    ∙ advance-xor 8 (hi * 256) lo (omega arith) (omega arith)
    ∙ ap (bit_xor (advance 8 (hi * 256))) low
  where
    low : advance 8 lo ≡ advance 7 (lo * 256)
    low = unfold advance in rw (entry_rounds_low lo hl)

regroup :
    (a b c0 c1 c2 c3 c4 c5 c6 c7 : ℕ)
    → bit_xor
        (bit_xor
          (bit_xor
            (bit_xor (bit_xor (bit_xor (bit_xor (bit_xor a c0) (bit_xor b c1)) c2) c3) c4)
            c5)
          c6)
        c7
      ≡ bit_xor (bit_xor a b) (
          bit_xor c0
            (bit_xor c1 (bit_xor c2 (bit_xor c3 (bit_xor c4 (bit_xor c5 (bit_xor c6 c7)))))))
regroup a b c0 c1 c2 c3 c4 c5 c6 c7 = rw (bit_xor_medial a c0 b c1) (simp bit_xor_assoc)

xor_times : (a b : ℕ) → bit_xor a b * 256 ≡ bit_xor (a * 256) (b * 256)
xor_times a b = ground (arith, bit_xor_fields 8 a 0 b 0 (omega arith) (omega arith))

table_xor :
    (k a b : ℕ)
    → a < 256
    → b < 256
    → get_or (slice_table k) (bit_xor a b % 256) 0
      ≡ bit_xor (advance (suc k) (a * 256)) (advance (suc k) (b * 256))
table_xor k a b ha hb =
    ap (λ i. get_or (slice_table k) i 0) (omega (arith, bit_xor-lt 8 a b ha hb))
    ∙ slice_table_entry k (bit_xor a b) (bit_xor-lt 8 a b ha hb)
    ∙ ap (advance (suc k)) (xor_times a b)
    ∙ advance-xor (suc k) (a * 256) (b * 256) (omega arith) (omega arith)

-- One round of the unrolled loop is eight steps of the textbook CRC.
slice_step-eq-crc_serial :
    (crc d0 d1 d2 d3 d4 d5 d6 d7 : ℕ)
    → crc < 65536
    → AreBytes (d0 ∷ d1 ∷ d2 ∷ d3 ∷ d4 ∷ d5 ∷ d6 ∷ d7 ∷ [])
    → slice_step crc d0 d1 d2 d3 d4 d5 d6 d7
      ≡ crc_serial crc (d0 ∷ d1 ∷ d2 ∷ d3 ∷ d4 ∷ d5 ∷ d6 ∷ d7 ∷ [])
unfolding slice_step
slice_step-eq-crc_serial crc d0 d1 d2 d3 d4 d5 d6 d7 h hb =
    let bytes = d0 ∷ d1 ∷ d2 ∷ d3 ∷ d4 ∷ d5 ∷ d6 ∷ d7 ∷ [] in
    let at : (k d : ℕ) → d < 256 → get_or (slice_table k) d 0 ≡ advance (suc k) (d * 256) =
      slice_table_entry in
    let halves : crc / 256 * 256 + crc % 256 ≡ crc = omega arith in
    ap u16 (
      cc (
        table_xor 7 (crc / 256) d0 (omega arith) hb.0,
        ap (λ lo. get_or (slice_table 6) (u8 (bit_xor lo d1)) 0) (bit_and_mask 8 crc),
        table_xor 6 (crc % 256) d1 (omega arith) hb.1.0,
        at 5 d2 hb.1.1.0,
        at 4 d3 hb.1.1.1.0,
        at 3 d4 hb.1.1.1.1.0,
        at 2 d5 hb.1.1.1.1.1.0,
        at 1 d6 hb.1.1.1.1.1.1.0,
        at 0 d7 hb.1.1.1.1.1.1.1.0,
        regroup (advance 8 (crc / 256 * 256)) (advance 7 (crc % 256 * 256)) (advance 8 (d0 * 256))
            (advance 7 (d1 * 256)) (advance 6 (d2 * 256)) (advance 5 (d3 * 256))
            (advance 4 (d4 * 256)) (advance 3 (d5 * 256)) (advance 2 (d6 * 256))
            (advance 1 (d7 * 256)),
        advance_register (crc / 256) (crc % 256) (omega arith) (omega arith),
        ap (advance 8) halves,
        crc_serial-split crc bytes h hb,
        crc_serial_eight d0 d1 d2 d3 d4 d5 d6 d7 hb,
      ))
    ∙ mod-eq_of_lt (crc_serial-lt crc bytes h hb)

crc_serial-append :
    (crc : ℕ) (xs ys : List ℕ) → crc_serial crc (xs ++ ys) ≡ crc_serial (crc_serial crc xs) ys
unfolding crc_serial
crc_serial-append crc [] ys = refl
crc_serial-append crc (x ∷ xs) ys = crc_serial-append (crc_byte crc x) xs ys

update_rest-eq-crc_serial :
    (crc : ℕ) (bs : List ℕ) → crc < 65536 → AreBytes bs → update_rest crc bs ≡ crc_serial crc bs
unfolding update_rest crc_serial
update_rest-eq-crc_serial crc [] h hb = refl
update_rest-eq-crc_serial crc (b ∷ bs) h hb =
    rw (update-eq-crc_byte crc b h hb.0)
      (update_rest-eq-crc_serial (crc_byte crc b) bs (crc_byte-lt crc b h hb.0) hb.1)

update_slices-eq-crc_serial :
    (crc : ℕ) (bs : List ℕ) → crc < 65536 → AreBytes bs → update_slices crc bs ≡ crc_serial crc bs
unfolding update_slices
update_slices-eq-crc_serial crc (d0 ∷ d1 ∷ d2 ∷ d3 ∷ d4 ∷ d5 ∷ d6 ∷ d7 ∷ bs) h hb =
    let bytes = d0 ∷ d1 ∷ d2 ∷ d3 ∷ d4 ∷ d5 ∷ d6 ∷ d7 ∷ [] in
    let front : AreBytes bytes = omega arith in
    rw (slice_step-eq-crc_serial crc d0 d1 d2 d3 d4 d5 d6 d7 h front) (
      update_slices-eq-crc_serial (crc_serial crc bytes) bs (crc_serial-lt crc bytes h front)
        hb.1.1.1.1.1.1.1.1
      ∙ sym (crc_serial-append crc bytes bs))
update_slices-eq-crc_serial crc bs h hb = update_rest-eq-crc_serial crc bs h hb

-- The checksum of any byte string, computed eight bytes at a time from the eight tables and byte by
-- byte from the first table at the end, is the bit-by-bit CRC of the string.
pub crc16_ccitt-eq-crc_serial :
    (bytes : List ℕ) → AreBytes bytes → crc16_ccitt bytes ≡ crc_serial 0 bytes
unfolding crc16_ccitt
crc16_ccitt-eq-crc_serial bytes h = update_slices-eq-crc_serial 0 bytes (omega arith) h

pub crc16_ccitt-lt : (bytes : List ℕ) → AreBytes bytes → crc16_ccitt bytes < 65536
crc16_ccitt-lt bytes h =
    rw (crc16_ccitt-eq-crc_serial bytes h) (crc_serial-lt 0 bytes (omega arith) h)
