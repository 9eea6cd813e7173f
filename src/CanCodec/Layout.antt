-- ===== src/CanCodec/Layout.antt =====
-- Writing fields that share no bit into a frame.
use servo_fleet.Prelude.{
  ℕ, ◌+◌, ◌*◌, ◌^◌, ◌≤◌, ◌<◌, ◌≡◌, refl, sym, ap, ◌∙◌, arith, subst, List, [], ◌∷◌, ◌++◌,
  Bool-cases, inl, inr, if◌then◌else◌, length, take, drop, length-take, length-drop, length-append,
  All, All-append, All-take, All-drop,
}
use servo_fleet.Words.{AreBytes, IsByte}
use servo_fleet.Error.{FleetErr, expected, and_then, is_error, Action}
use servo_fleet.BitCodec.{Bits, read, write}
use servo_fleet.BitCodec.FieldReads.{IsField}
use servo_fleet.BitCodec.Laws.{write-IsWritten, read-write_self, read-write-Disjoint, Disjoint}
use servo_fleet.CanFrame.{CanFrame, as_bytes_view}
use servo_fleet.MotorCodec.Encode.{take-append}
use servo_fleet.CanCodec.{read_field, write_field, write_fields}

-- A field of at least one and at most 32 bits among the first `len` bytes.
abbrev pub Inside : ℕ → Bits → Type 0
Inside len f = (0 < f.len) × (f.len ≤ 32) × (f.offset + f.len ≤ 8 * len)

-- Fields inside the frame, with values that they can hold, of which no two share a bit.
abbrev pub Laid : ℕ → List (Bits × ℕ) → Type 0
Laid len [] = Unit
Laid len ((f, raw) ∷ rest) =
    Inside len f × (raw < 2 ^ f.len) × All (λ e. Disjoint e.0 f) rest × Laid len rest

-- Only the data of the frame differ, and they are bytes.
pub record Kept (frame out : CanFrame) : Type 0 where
  pub same_port : out.port ≡ frame.port
  pub same_id : out.id ≡ frame.id
  pub same_extended : out.extended ≡ frame.extended
  pub same_len : out.len ≡ frame.len
  pub eight : length out.bytes ≡ 8
  pub bytes_are : AreBytes out.bytes

Kept-trans : (a b c : CanFrame) → Kept a b → Kept b c → Kept a c
Kept-trans a b c h k = record {
  same_port = k.same_port ∙ h.same_port;
  same_id = k.same_id ∙ h.same_id;
  same_extended = k.same_extended ∙ h.same_extended;
  same_len = k.same_len ∙ h.same_len;
  eight = k.eight;
  bytes_are = k.bytes_are;
}

module _ (frame : CanFrame) (eight : length frame.bytes ≡ 8) (small : frame.len ≤ 8)
    (bytes_are : AreBytes frame.bytes) where
  pub length-view : length (as_bytes_view frame) ≡ frame.len
  length-view = omega (arith, length-take frame.len frame.bytes)

  pub view_are : AreBytes (as_bytes_view frame)
  view_are = All-take IsByte frame.len frame.bytes bytes_are

  pub IsField-of : (f : Bits) → Inside frame.len f → IsField f (as_bytes_view frame)
  IsField-of f h = omega (arith, length-view)

  write_field_lem :
      (f : Bits) (raw : ℕ)
      → Inside frame.len f
      → raw < 2 ^ f.len
      → ((write_field f raw frame).0 ≡ FleetErr.ok)
        × Kept frame (write_field f raw frame).1
        × (read_field f (write_field f raw frame).1 ≡ expected raw)
        × ((g : Bits)
            → Inside frame.len g
            → Disjoint f g
            → read_field g (write_field f raw frame).1 ≡ read_field g frame)
  unfolding write_field read_field
  write_field_lem f raw inside hr =
      let w =
        write-IsWritten f raw view view_are (IsField-of f inside) (omega (arith, length-view)) hr in
      (
        w.0,
        record {
          same_port = refl;
          same_id = refl;
          same_extended = refl;
          same_len = refl;
          eight = omega (
            arith,
            length-append out behind,
            w.1.same_length,
            length-view,
            length-drop frame.len frame.bytes,
          );
          bytes_are =
              All-append IsByte out behind w.1.are_bytes
                (All-drop IsByte frame.len frame.bytes bytes_are);
        },
        ap (read f) (seen w.1.same_length)
            ∙ read-write_self f raw view view_are (IsField-of f inside) (omega (arith, length-view))
                hr,
        λ g h d.
            ap (read g) (seen w.1.same_length)
            ∙ read-write-Disjoint f g raw view view_are (IsField-of f inside) (IsField-of g h)
                (omega (arith, length-view)) hr d,
      )
    where
      view : List ℕ
      view = as_bytes_view frame

      out : List ℕ
      out = (write f raw view).1

      behind : List ℕ
      behind = drop frame.len frame.bytes

      seen : length out ≡ length view → take frame.len (out ++ behind) ≡ out
      seen e =
          ap (λ n. take n (out ++ behind)) {x = frame.len} {y = length out}
            (omega (arith, length-view))
          ∙ take-append out behind

-- What a chain of writes leaves: every field written reads back, and a field that shares no bit with
-- them is as it was.
pub record Written (fields : List (Bits × ℕ)) (frame : CanFrame) (out : FleetErr × CanFrame)
    : Type 0 where
  pub succeeds : out.0 ≡ FleetErr.ok
  pub kept : Kept frame out.1
  pub written : All (λ e. read_field e.0 out.1 ≡ expected e.1) fields
  pub others :
      (g : Bits)
      → Inside frame.len g
      → All (λ e. Disjoint e.0 g) fields
      → read_field g out.1 ≡ read_field g frame

pub write_fields_lem :
    (fields : List (Bits × ℕ)) (frame : CanFrame)
    → length frame.bytes ≡ 8
    → frame.len ≤ 8
    → AreBytes frame.bytes
    → Laid frame.len fields
    → Written fields frame (write_fields fields frame)
unfolding write_fields
write_fields_lem [] frame eight small bytes_are laid = record {
  succeeds = refl;
  kept = record {
    same_port = refl;
    same_id = refl;
    same_extended = refl;
    same_len = refl;
    eight = eight;
    bytes_are = bytes_are;
  };
  written = laid;
  others = λ g h d. refl;
}
write_fields_lem ((f, raw) ∷ rest) frame eight small bytes_are (inside, hr, apart, laid) =
    let first = write_field_lem frame eight small bytes_are f raw inside hr in
    let mid = (write_field f raw frame).1 in
    let k = first.1 in
    let ih =
      write_fields_lem rest mid k.eight (omega arith) k.bytes_are
        (subst (λ n. Laid n rest) (sym k.same_len) laid) in
    subst (λ o. Written ((f, raw) ∷ rest) frame o) (sym (step first.0))
      (record {
        succeeds = ih.succeeds;
        kept = Kept-trans frame mid (write_fields rest mid).1 k ih.kept;
        written = (ih.others f (omega arith) apart ∙ first.2, ih.written);
        others = λ g h d. ih.others g (omega arith) d.1 ∙ first.3 g h d.0;
      })
  where
    step :
        (write_field f raw frame).0 ≡ FleetErr.ok
        → and_then (write_field f raw frame) (write_fields rest)
          ≡ write_fields rest (write_field f raw frame).1
    step e = rw e

pub and_then_ext :
    {S : Type 0} (p : FleetErr × S) (k l : Action S) → k p.1 ≡ l p.1 → and_then p k ≡ and_then p l
and_then_ext (e, s) k l h = ap (λ x. if is_error e then (e, s) else x) h

and_then_assoc :
    {S : Type 0} (p : FleetErr × S) (k l : Action S)
    → and_then (and_then p k) l ≡ and_then p (λ s. and_then (k s) l)
and_then_assoc (e, s) k l = elim (Bool-cases (is_error e)) [ inl h ↦ rw (h, h) | inr h ↦ rw h ]

pub write_fields-append :
    (xs ys : List (Bits × ℕ)) (frame : CanFrame)
    → write_fields (xs ++ ys) frame ≡ and_then (write_fields xs frame) (write_fields ys)
unfolding write_fields
write_fields-append [] ys frame = refl
write_fields-append ((f, raw) ∷ xs) ys frame =
    let first = write_field f raw frame in
    and_then_ext first (write_fields (xs ++ ys))
      (λ s. and_then (write_fields xs s) (write_fields ys)) (write_fields-append xs ys first.1)
    ∙ sym (and_then_assoc first (write_fields xs) (write_fields ys))
