-- ===== src/MotorCodec/Encode.antt =====
-- `encode_into` writes the packet of the format, and nothing behind it.
use native.Mathlib.Nat.{mod-eq_of_lt}
use servo_fleet.Prelude.{
  ℕ, ◌+◌, ◌*◌, ◌/◌, ◌%◌, ◌^◌, ◌<◌, ◌≤◌, ◌≡◌, refl, ◌∙◌, ap, arith, true, ltb, if◌then◌else◌, List,
  [], ◌∷◌, ◌++◌, length, drop, take, set, length-append, bit_and, copy_into, copy_into-front,
  copy_into-append,
}
use servo_fleet.Words.{u8, u16, u32, shr}
use servo_fleet.Words.Digits.{bit_and_mask}
use servo_fleet.Error.{FleetErr, expected, unexpected}
use servo_fleet.Checksum.{crc16_ccitt}
use servo_fleet.CanFrame.{CanFrame}
use servo_fleet.MotorCodec.{
  write_u16_be, write_entries, all_valid, stx, etx, encode_into, fill_packet, packet_size,
  payload_len_for,
}
use servo_fleet.MotorCodec.Wire.{
  be16, entries, body, packet, AreFrames, length-entries, write_entries-eq,
}

pub take-append {ℓ} : {A : Type ℓ} (xs ys : List A) → take (length xs) (xs ++ ys) ≡ xs
take-append [] ys = refl
take-append (x ∷ xs) ys = ap (◌∷◌ x) (take-append xs ys)

pub length-body :
    (kind : ℕ) (frames : List CanFrame)
    → AreFrames frames
    → length (body kind frames) ≡ 4 + 14 * length frames
unfolding body
length-body kind frames h = omega (arith, length-entries frames h)

pub length-packet :
    (kind : ℕ) (frames : List CanFrame)
    → AreFrames frames
    → length (packet kind frames) ≡ 8 + 14 * length frames
unfolding packet
length-packet kind frames h =
    let crc = crc16_ccitt (body kind frames) in
    omega (
      arith,
      length-append (body kind frames) (crc % 256 ∷ crc / 256 % 256 ∷ etx ∷ []),
      length-body kind frames h,
    )

-- STX and the header fields are the front of the packet.
headed-eq :
    (out : List ℕ) (kind payload_len n : ℕ)
    → payload_len < 65536
    → n < 256
    → set (write_u16_be (set (set out 0 stx) 1 kind) 2 (u16 payload_len)) 4 (u8 n)
      ≡ copy_into out 0 (stx ∷ kind ∷ (be16 payload_len ++ (n ∷ [])))
unfolding write_u16_be copy_into
headed-eq out kind payload_len n hp hn = rw (mod-eq_of_lt hp, mod-eq_of_lt hn)

trailer-eq :
    (p : List ℕ) (o crc : ℕ)
    → set (set (set p o (u8 (bit_and crc 0xff))) (o + 1) (u8 (shr crc 8))) (o + 2) etx
      ≡ copy_into p o (crc % 256 ∷ crc / 256 % 256 ∷ etx ∷ [])
unfolding copy_into
trailer-eq p o crc =
    let two : o + 1 + 1 ≡ o + 2 = omega arith in
    let low : bit_and crc 0xff % 2 ^ 8 ≡ crc % 256 = omega (arith, bit_and_mask 8 crc) in
    rw (two, low)

-- Everything up to the checksum.
front-eq :
    (out : List ℕ) (kind : ℕ) (frames : List CanFrame)
    → AreFrames frames
    → all_valid frames ≡ true
    → length frames ≤ 32
    → write_entries
        (set
          (write_u16_be (set (set out 0 stx) 1 kind) 2 (u16 (1 + 14 * length frames)))
          4
          (u8 (length frames)))
        5
        frames
      ≡ (copy_into out 0 (stx ∷ body kind frames), 5 + 14 * length frames)
front-eq out kind frames h v le =
    ap (λ p. write_entries p 5 frames)
      (headed-eq out kind (1 + 14 * length frames) (length frames) (omega arith) (omega arith))
    ∙ write_entries-eq _ 5 frames h v
    ∙ ap (λ p. (p, 5 + 14 * length frames)) joined
  where
    header : List ℕ
    header = stx ∷ kind ∷ (be16 (1 + 14 * length frames) ++ (length frames ∷ []))

    joined :
        copy_into (copy_into out 0 header) 5 (entries frames)
        ≡ copy_into out 0 (stx ∷ body kind frames)
    joined = unfold body in copy_into-append out 0 header (entries frames)

-- What `fill_packet` does once the entries are written.
abbrev close_packet : ℕ → List ℕ × ℕ → List ℕ
close_packet payload_len (p, offset) =
    let crc = crc16_ccitt (take (3 + payload_len) (drop 1 p)) in
    set (set (set p offset (u8 (bit_and crc 0xff))) (offset + 1) (u8 (shr crc 8))) (offset + 2) etx

fill_packet-eq :
    (out : List ℕ) (kind : ℕ) (frames : List CanFrame)
    → AreFrames frames
    → all_valid frames ≡ true
    → length frames ≤ 32
    → 8 + 14 * length frames ≤ length out
    → fill_packet out kind (1 + 14 * length frames) frames
      ≡ packet kind frames ++ drop (8 + 14 * length frames) out
unfolding fill_packet packet
fill_packet-eq out kind frames h v le fits =
    ap (close_packet (1 + 14 * length frames)) (front-eq out kind frames h v le)
    ∙ ap (λ c. closed c) covered
    ∙ trailer-eq (copy_into out 0 front) (5 + 14 * length frames) crc
    ∙ ap (λ o. copy_into (copy_into out 0 front) o trailer)
        (omega (arith, length-body kind frames h))
    ∙ copy_into-append out 0 front trailer
    ∙ copy_into-front out (front ++ trailer) (omega (arith, whole))
    ∙ ap (λ n. front ++ trailer ++ drop n out) whole
  where
    front : List ℕ
    front = stx ∷ body kind frames

    crc : ℕ
    crc = crc16_ccitt (body kind frames)

    trailer : List ℕ
    trailer = crc % 256 ∷ crc / 256 % 256 ∷ etx ∷ []

    whole : length (front ++ trailer) ≡ 8 + 14 * length frames
    whole = length-packet kind frames h

    closed : ℕ → List ℕ
    closed c =
        let p = copy_into out 0 front in
        let o = 5 + 14 * length frames in
        set (set (set p o (u8 (bit_and c 0xff))) (o + 1) (u8 (shr c 8))) (o + 2) etx

    covered :
        crc16_ccitt (take (3 + (1 + 14 * length frames)) (drop 1 (copy_into out 0 front))) ≡ crc
    covered =
        ap (λ p. crc16_ccitt (take (3 + (1 + 14 * length frames)) (drop 1 p)))
          (copy_into-front out front (omega (arith, length-body kind frames h)))
        ∙ ap (λ n. crc16_ccitt (take n (body kind frames ++ drop (length front) out)))
            (omega (arith, length-body kind frames h))
        ∙ ap crc16_ccitt (take-append (body kind frames) (drop (length front) out))

size-eq : (n : ℕ) → n ≤ 32 → packet_size (u16 (payload_len_for (u32 n))) ≡ 8 + 14 * n
unfolding packet_size payload_len_for
size-eq n h = omega arith

payload-eq : (n : ℕ) → n ≤ 32 → payload_len_for (u32 n) ≡ 1 + 14 * n
unfolding payload_len_for
payload-eq n h = omega arith

-- `encode_into` refuses more than 32 frames, a buffer that is too small and a frame that is not
-- valid, in this order, and leaves the buffer alone; otherwise it returns the size of the packet
-- of the format, which is the front of the buffer afterwards, and leaves the bytes behind it.
pub encode_into_lem :
    (out : List ℕ) (kind : ℕ) (frames : List CanFrame)
    → AreFrames frames
    → encode_into out kind frames ≡ (
        if ltb 32 (length frames)
        then (unexpected FleetErr.protocol_error, out)
        else if ltb (length out) (8 + 14 * length frames)
        then (unexpected FleetErr.invalid_argument, out)
        else if all_valid frames
        then (
          expected (8 + 14 * length frames),
          packet kind frames ++ drop (8 + 14 * length frames) out,
        )
        else (unexpected FleetErr.protocol_error, out))
unfolding encode_into
encode_into_lem out kind frames h = ground (
  arith,
  size-eq (length frames),
  payload-eq (length frames),
  ap (λ n. fill_packet out kind n frames) {x = payload_len_for (u32 (length frames))}
      {y = 1 + 14 * length frames},
  fill_packet-eq out kind frames h,
)
