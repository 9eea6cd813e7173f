-- ===== src/MotorCodec/Entries.antt =====
-- The entries of a packet are read back as the frames they were written from.
use servo_fleet.Prelude.{
  ℕ, zero, suc, ◌+◌, ◌/◌, ◌%◌, ◌^◌, ◌<◌, ◌≡◌, refl, ◌∙◌, ap, sym, arith, true, List, [], ◌∷◌, ◌++◌,
  length, drop, take, append_assoc, bit_or,
}
use mathlib.Core.List.{foldl}
use servo_fleet.Words.{shl32}
use servo_fleet.Words.Digits.{bit_and_mask, bit_and_fields, bit_and-zero}
use servo_fleet.Words.Join.{quad_value}
use servo_fleet.Error.{FleetErr, expected}
use servo_fleet.CanFrame.{CanFrame, IsFrame, valid, empty_frame}
use servo_fleet.MotorCodec.{read_can_entry, read_u32_be, apply_wire_id, decode_entries, all_valid}
use servo_fleet.MotorCodec.Wire.{entry, entries, wire_id, AreFrames, length-entry}
use servo_fleet.MotorCodec.Encode.{take-append}

join_be32 :
    (v : ℕ)
    → v < 2 ^ 32
    → bit_or
        (bit_or
          (bit_or (shl32 (v / 16777216 % 256) 24) (shl32 (v / 65536 % 256) 16))
          (shl32 (v / 256 % 256) 8))
        (v % 256)
      ≡ v
join_be32 v h =
    quad_value (v / 16777216 % 256) (v / 65536 % 256) (v / 256 % 256) (v % 256) (omega arith)
      (omega arith) (omega arith) (omega arith)
    ∙ omega arith

take_all {ℓ} : {A : Type ℓ} (xs : List A) (n : ℕ) → length xs ≡ n → take n xs ≡ xs
take_all [] zero h = refl
take_all [] (suc n) h = refl
take_all (x ∷ xs) zero h = absurd (omega arith)
take_all (x ∷ xs) (suc n) h = ap (◌∷◌ x) (take_all xs n (omega arith))

wire_id-lt :
    (frame : CanFrame) → valid frame ≡ true → (wire_id frame < 2 ^ 32) × (frame.id < 2 ^ 31)
unfolding valid
wire_id-lt frame h = (ground arith, ground arith)

-- The flag and the identifier are recovered.
apply_wire_id-eq :
    (frame blank : CanFrame)
    → valid frame ≡ true
    → apply_wire_id blank (wire_id frame)
      ≡ record blank { extended = frame.extended; id = frame.id }
unfolding apply_wire_id
apply_wire_id-eq frame blank h = ground (
  arith,
  wire_id-lt frame h,
  bit_and_mask 31 (wire_id frame),
  bit_and_fields 31 1 frame.id 1 0,
  bit_and_fields 31 0 frame.id 1 0,
  bit_and-zero frame.id,
)

-- An entry is read back as the frame it was written from.
read_can_entry-entry :
    (frame : CanFrame)
    → IsFrame frame
    → valid frame ≡ true
    → read_can_entry (entry frame) ≡ expected frame
unfolding read_can_entry entry read_u32_be valid
read_can_entry-entry frame h v =
    rw
      (
        join_be32 (wire_id frame) (wire_id-lt frame v).0,
        apply_wire_id-eq frame (record empty_frame { port = frame.port; len = frame.len }) v,
        take_all frame.bytes 8 h.eight,
      )
      (ground arith)

drop-nil {ℓ} : (A : Type ℓ) (n : ℕ) → drop {A = A} n [] ≡ []
drop-nil A zero = refl
drop-nil A (suc n) = refl

drop_further {ℓ} : {A : Type ℓ} (o n : ℕ) (xs : List A) → drop (o + n) xs ≡ drop n (drop o xs)
drop_further zero n xs = ap (λ k. drop k xs) (omega arith)
drop_further {A} (suc o) n [] = drop-nil A (suc o + n) ∙ sym (drop-nil A n)
drop_further (suc o) n (x ∷ xs) =
    ap (λ k. drop k (x ∷ xs)) {y = suc (o + n)} (omega arith) ∙ drop_further o n xs

pub drop-append {ℓ} : {A : Type ℓ} (xs ys : List A) → drop (length xs) (xs ++ ys) ≡ ys
drop-append [] ys = refl
drop-append (x ∷ xs) ys = drop-append xs ys

module _ {S : Type 0} (handler : S → CanFrame → S) where
  -- The loop delivers the frames whose entries stand at its offset.
  pub decode_entries-eq :
      (bytes rest : List ℕ) (o : ℕ) (frames : List CanFrame) (s : S)
      → AreFrames frames
      → all_valid frames ≡ true
      → drop o bytes ≡ entries frames ++ rest
      → decode_entries handler bytes o (length frames) s ≡ (FleetErr.ok, foldl handler s frames)
  unfolding decode_entries entries all_valid
  decode_entries-eq bytes rest o [] s h v e = refl
  decode_entries-eq bytes rest o (frame ∷ frames) s h v e =
      rw (this_entry, decode_entries)
        (decode_entries-eq bytes rest (o + 14) frames (handler s frame) h.1 (ground arith) others)
    where
      split : drop o bytes ≡ entry frame ++ (entries frames ++ rest)
      split = e ∙ append_assoc (entry frame) (entries frames) rest

      others : drop (o + 14) bytes ≡ entries frames ++ rest
      others =
          drop_further o 14 bytes
          ∙ ap (drop 14) split
          ∙ ap (λ n. drop n (entry frame ++ (entries frames ++ rest)))
              (sym (length-entry frame h.0.eight))
          ∙ drop-append (entry frame) (entries frames ++ rest)

      this_entry : read_can_entry (take 14 (drop o bytes)) ≡ expected frame
      this_entry =
          ap (λ b. read_can_entry (take 14 b)) split
          ∙ ap (λ n. read_can_entry (take n (entry frame ++ (entries frames ++ rest))))
              (sym (length-entry frame h.0.eight))
          ∙ ap read_can_entry (take-append (entry frame) (entries frames ++ rest))
          ∙ read_can_entry-entry frame h.0 (ground arith)
