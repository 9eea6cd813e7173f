-- ===== src/MotorCodec/Wire.antt =====
-- The packet format of src/codec_motor.h and src/codec_can.h, written down from its tables.
use servo_fleet.Prelude.{
  ℕ, ◌+◌, ◌*◌, ◌/◌, ◌%◌, ◌≡◌, refl, ◌∙◌, ap, ap₂, sym, arith, true, if◌then◌else◌, List, [], ◌∷◌,
  ◌++◌, length, set, length-append, All, copy_into, copy_into-append,
}
use servo_fleet.Words.Digits.{bit_or_fields, bit_or_comm}
use servo_fleet.Checksum.{crc16_ccitt}
use servo_fleet.CanFrame.{CanFrame, IsFrame, valid}
use servo_fleet.MotorCodec.{
  write_u32_be, write_can_entry, write_entries, wire_id_from, all_valid, stx, etx,
}

abbrev pub be16 : ℕ → List ℕ
be16 v = v / 256 % 256 ∷ v % 256 ∷ []

abbrev pub be32 : ℕ → List ℕ
be32 v = v / 16777216 % 256 ∷ v / 65536 % 256 ∷ v / 256 % 256 ∷ v % 256 ∷ []

-- Bit 31 of the identifier marks an extended frame.
abbrev pub wire_id : CanFrame → ℕ
wire_id frame = frame.id + (if frame.extended then 2147483648 else 0)

-- PORT, ID, LEN, DATA.
unfoldable pub entry : CanFrame → List ℕ
entry frame = frame.port ∷ (be32 (wire_id frame) ++ (frame.len ∷ frame.bytes))

unfoldable pub entries : List CanFrame → List ℕ
entries [] = []
entries (frame ∷ frames) = entry frame ++ entries frames

-- TYPE, LENGTH, MSG_CNT and the entries: what the checksum covers.
unfoldable pub body : ℕ → List CanFrame → List ℕ
body kind frames = kind ∷ (be16 (1 + 14 * length frames) ++ (length frames ∷ entries frames))

-- STX, the body, CHECKSUM with its low byte first, ETX.
unfoldable pub packet : ℕ → List CanFrame → List ℕ
packet kind frames =
    let crc = crc16_ccitt (body kind frames) in
    stx ∷ (body kind frames ++ (crc % 256 ∷ crc / 256 % 256 ∷ etx ∷ []))

-- What every frame of a span is by its type.
abbrev pub AreFrames : List CanFrame → Type 0
AreFrames = All IsFrame

pub length-entry : (frame : CanFrame) → length frame.bytes ≡ 8 → length (entry frame) ≡ 14
unfolding entry
length-entry frame h = omega arith

pub length-entries :
    (frames : List CanFrame) → AreFrames frames → length (entries frames) ≡ 14 * length frames
unfolding entries
length-entries [] h = refl
length-entries (frame ∷ frames) h = omega (
  arith,
  length-append (entry frame) (entries frames),
  length-entry frame h.0.eight,
  length-entries frames h.1,
)

write_u32_be-eq : (p : List ℕ) (o v : ℕ) → write_u32_be p o v ≡ copy_into p o (be32 v)
unfolding write_u32_be copy_into
write_u32_be-eq p o v =
    let two : o + 1 + 1 ≡ o + 2 = omega arith in
    let three : o + 2 + 1 ≡ o + 3 = omega arith in rw (two, three)

wire_id_from-eq : (frame : CanFrame) → valid frame ≡ true → wire_id_from frame ≡ wire_id frame
unfolding wire_id_from valid
wire_id_from-eq frame h =
    ground (arith, bit_or_comm frame.id 0x8000_0000, bit_or_fields 31 1 frame.id)

write_entry_parts :
    (p : List ℕ) (base port v len : ℕ) (bytes : List ℕ)
    → copy_into (set (write_u32_be (set p base port) (base + 1) v) (base + 5) len) (base + 6) bytes
      ≡ copy_into p base (port ∷ (be32 v ++ (len ∷ bytes)))
unfolding write_u32_be copy_into
write_entry_parts p base port v len bytes =
    let two : base + 1 + 1 ≡ base + 2 = omega arith in
    let three : base + 1 + 2 ≡ base + 3 = omega arith in
    let three' : base + 2 + 1 ≡ base + 3 = omega arith in
    let four : base + 1 + 3 ≡ base + 4 = omega arith in
    let four' : base + 3 + 1 ≡ base + 4 = omega arith in
    let five : base + 4 + 1 ≡ base + 5 = omega arith in
    let six : base + 5 + 1 ≡ base + 6 = omega arith in
    rw (two, three, four, three', four', five, six)

-- An entry is written as one run of bytes.
write_can_entry-eq :
    (p : List ℕ) (base : ℕ) (frame : CanFrame)
    → valid frame ≡ true
    → write_can_entry p base frame ≡ copy_into p base (entry frame)
unfolding write_can_entry entry
write_can_entry-eq p base frame h =
    rw (wire_id_from-eq frame h)
      (write_entry_parts p base frame.port (wire_id frame) frame.len frame.bytes)

abbrev pair : List ℕ → ℕ → List ℕ × ℕ
pair q k = (q, k)

-- So are all entries.
pub write_entries-eq :
    (p : List ℕ) (o : ℕ) (frames : List CanFrame)
    → AreFrames frames
    → all_valid frames ≡ true
    → write_entries p o frames ≡ (copy_into p o (entries frames), o + 14 * length frames)
unfolding write_entries entries all_valid copy_into
write_entries-eq p o [] h v = ap (pair (copy_into p o [])) (omega arith)
write_entries-eq p o (frame ∷ frames) h v =
    ap (λ q. write_entries q (o + 14) frames) (write_can_entry-eq p o frame (ground arith))
    ∙ write_entries-eq (copy_into p o (entry frame)) (o + 14) frames h.1 (ground arith)
    ∙ ap₂ pair
        (ap (λ k. copy_into (copy_into p o (entry frame)) (o + k) (entries frames))
            (sym (length-entry frame h.0.eight))
          ∙ copy_into-append p o (entry frame) (entries frames))
        (omega arith)
