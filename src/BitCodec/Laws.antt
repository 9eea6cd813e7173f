-- ===== src/BitCodec/Laws.antt =====
-- Writing a field and reading the buffer again.
use native.Mathlib.Nat.{mod-eq_of_lt, pow-le-pow_right}
use servo_fleet.Prelude.{ℕ, ◌+◌, ◌^◌, ◌≤◌, ◌<◌, ◌≡◌, ap, ◌∙◌, sym, ◌⊎◌, List, length, arith, subst}
use servo_fleet.Words.{AreBytes}
use servo_fleet.Error.{FleetErr, expected}
use servo_fleet.BitCodec.{Bits, read, write, write_range}
use servo_fleet.BitCodec.View.{bit_at, bits_value_ext, bits_value-bit_of}
use servo_fleet.BitCodec.Writing.{write_range-IsWritten}
use servo_fleet.BitCodec.BitLoop.{IsWritten}
use servo_fleet.BitCodec.Fields.{read_lem, write_lem}
use servo_fleet.BitCodec.FieldReads.{IsField, Fits, field_value}

below_word : (f : Bits) (raw : ℕ) → f.len ≤ 32 → raw < 2 ^ f.len → raw < 2 ^ 32
below_word f raw h hr = omega (arith, pow-le-pow_right {n = 2} (omega arith) h)

-- `write<Field>` of a value that fits, into a field inside the buffer, succeeds, and changes the
-- bits of that field and no other.
pub write-IsWritten :
    (f : Bits) (raw : ℕ) (bytes : List ℕ)
    → AreBytes bytes
    → IsField f bytes
    → Fits f bytes
    → raw < 2 ^ f.len
    → ((write f raw bytes).0 ≡ FleetErr.ok)
      × IsWritten bytes (write f raw bytes).1 f.offset (f.offset + f.len) (f.offset + f.len) raw
write-IsWritten f raw bytes hb v fits hr = (
  ap (λ p. p.0) done,
  subst (λ p. IsWritten bytes p.1 f.offset (f.offset + f.len) (f.offset + f.len) raw) (sym done)
      (write_range-IsWritten bytes f.offset f.len raw hb v.narrow fits),
)
  where
    done : write f raw bytes ≡ (FleetErr.ok, write_range bytes f.offset f.len raw)
    done = write_lem f raw bytes v (below_word f raw v.narrow hr) ∙ ground arith

field_value-IsWritten :
    (f : Bits) (raw : ℕ) (bytes out : List ℕ)
    → raw < 2 ^ f.len
    → IsWritten bytes out f.offset (f.offset + f.len) (f.offset + f.len) raw
    → field_value f out ≡ raw
unfolding field_value
field_value-IsWritten f raw bytes out hr w =
    bits_value-bit_of (bit_at out) raw f.offset f.len w.inside ∙ mod-eq_of_lt hr

IsField-IsWritten :
    (f : Bits) (bytes out : List ℕ) → length out ≡ length bytes → IsField f bytes → IsField f out
IsField-IsWritten f bytes out e v = ground arith

-- A field that was written reads back the value written.
pub read-write_self :
    (f : Bits) (raw : ℕ) (bytes : List ℕ)
    → AreBytes bytes
    → IsField f bytes
    → Fits f bytes
    → raw < 2 ^ f.len
    → read f (write f raw bytes).1 ≡ expected raw
read-write_self f raw bytes hb v fits hr =
    let w = (write-IsWritten f raw bytes hb v fits hr).1 in
    let out = (write f raw bytes).1 in
    read_lem f out w.are_bytes (IsField-IsWritten f bytes out w.same_length v)
    ∙ ground (arith, field_value-IsWritten f raw bytes out hr w, w.same_length)

abbrev pub Disjoint : Bits → Bits → Type 0
Disjoint f g = (g.offset + g.len ≤ f.offset) ⊎ (f.offset + f.len ≤ g.offset)

field_value-Disjoint :
    (f g : Bits) (raw : ℕ) (bytes out : List ℕ)
    → Disjoint f g
    → IsWritten bytes out f.offset (f.offset + f.len) (f.offset + f.len) raw
    → field_value g out ≡ field_value g bytes
unfolding field_value
field_value-Disjoint f g raw bytes out d w =
    bits_value_ext (bit_at out) (bit_at bytes) g.offset g.len (λ k p q. w.outside k (omega arith))

-- A write to one field leaves every field that shares no bit with it as it was, for a reader.
pub read-write-Disjoint :
    (f g : Bits) (raw : ℕ) (bytes : List ℕ)
    → AreBytes bytes
    → IsField f bytes
    → IsField g bytes
    → Fits f bytes
    → raw < 2 ^ f.len
    → Disjoint f g
    → read g (write f raw bytes).1 ≡ read g bytes
read-write-Disjoint f g raw bytes hb v u fits hr d =
    let w = (write-IsWritten f raw bytes hb v fits hr).1 in
    let out = (write f raw bytes).1 in
    read_lem g out w.are_bytes (IsField-IsWritten g bytes out w.same_length u)
    ∙ ground
        (arith, field_value-Disjoint f g raw bytes out d w, w.same_length, read_lem g bytes hb u)
