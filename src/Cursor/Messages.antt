-- ===== src/Cursor/Messages.antt =====
-- Messages: what the writers append field by field, `readMessage` reads back field by field.
use apiforge.Base.{
  ℕ, zero, suc, ◌+◌, ◌*◌, ◌/◌, ◌%◌, ◌^◌, ◌<◌, ◌≤◌, ◌≡◌, refl, ◌∙◌, ap, false, none, some, List, [],
  ◌∷◌, ◌++◌, map, append_assoc, arith, ltb, length, take, drop, length-append, All,
}
use apiforge.Base.Text.{Bytes}
use apiforge.Cursor.{
  varint_on, varint, tag, msg_field, var_field, ProtoField, read_varint_at, read_chunk, read_field,
  read_message_on, read_message,
}
use apiforge.Cursor.Varint.{read_varint_at-varint}

-- A field as the writers take it.
pub data WireField : Type 0 where
  number : ℕ → ℕ → WireField
  chunk : ℕ → Bytes → WireField

unfoldable pub write_field : WireField → Bytes
write_field (number field value) = var_field field value
write_field (chunk field body) = msg_field field body

unfoldable pub write_fields : List WireField → Bytes
unfolding write_field
write_fields [] = []
write_fields (f ∷ rest) = write_field f ++ write_fields rest

-- The same field as the reader gives it.
abbrev pub as_read : WireField → ProtoField
as_read (number field value) = record { field = field; wire = 0; bytes = none; value = value }
as_read (chunk field body) = record { field = field; wire = 2; bytes = some body; value = 0 }

-- The field's key, and its value or its length, are of 64 bits.
abbrev pub Fits : WireField → Type 0
Fits (number field value) = (field < 2 ^ 60) × (value < 2 ^ 64)
Fits (chunk field body) = (field < 2 ^ 60) × (length body < 2 ^ 64)

pub take-length : (xs ys : Bytes) → take (length xs) (xs ++ ys) ≡ xs
take-length [] ys = refl
take-length (x ∷ xs) ys = ap (◌∷◌ x) (take-length xs ys)

pub drop-length : (xs ys : Bytes) → drop (length xs) (xs ++ ys) ≡ ys
drop-length [] ys = refl
drop-length (x ∷ xs) ys = drop-length xs ys

varint-nonempty : (n : ℕ) → 0 < length (varint n)
unfolding varint varint_on
varint-nonempty n = ground arith

read_message_on-step :
    (fuel : ℕ) (buf : Bytes)
    → 0 < length buf
    → read_message_on (suc fuel) buf
      ≡ read_field
          (read_message_on fuel)
          ((read_varint_at buf).0 / 8)
          ((read_varint_at buf).0 % 8)
          (read_varint_at buf).1
unfolding read_message_on
read_message_on-step fuel [] h = absurd (omega arith)
read_message_on-step fuel (b ∷ buf) h = refl

read_field-number :
    (more : Bytes → List ProtoField) (field value : ℕ) (rest : Bytes)
    → value < 2 ^ 64
    → read_field more field 0 (varint value ++ rest) ≡ as_read (number field value) ∷ more rest
unfolding read_field
read_field-number more field value rest h = rw ((read_varint_at-varint value rest h).0) refl

read_field-chunk :
    (more : Bytes → List ProtoField) (field : ℕ) (body rest : Bytes)
    → length body < 2 ^ 64
    → read_field more field 2 (varint (length body) ++ (body ++ rest))
      ≡ as_read (chunk field body) ∷ more rest
unfolding read_field
read_field-chunk more field body rest h =
    let within : ltb (length (body ++ rest)) (length body) ≡ false =
      ground (arith, length-append body rest) in
    ap (read_chunk more field) (read_varint_at-varint (length body) (body ++ rest) h).0
    ∙ rw (within, take-length body rest, drop-length body rest, read_chunk) refl

-- One field is read, whatever follows it.
read_tag :
    (fuel field wire : ℕ) (rest : Bytes)
    → field < 2 ^ 60
    → wire < 8
    → read_message_on (suc fuel) (tag field wire ++ rest)
      ≡ read_field (read_message_on fuel) field wire rest
unfolding tag
read_tag fuel field wire rest f w =
    let key : (read_varint_at (varint (field * 8 + wire) ++ rest)) ≡ (field * 8 + wire, rest) =
      (read_varint_at-varint (field * 8 + wire) rest (omega arith)).0 in
    let high : (field * 8 + wire) / 8 ≡ field = omega arith in
    let low : (field * 8 + wire) % 8 ≡ wire = omega arith in
    read_message_on-step fuel (varint (field * 8 + wire) ++ rest) (
      omega
        (arith, varint-nonempty (field * 8 + wire), length-append (varint (field * 8 + wire)) rest))
    ∙ rw (key, high, low) refl

read_one :
    (fuel : ℕ) (f : WireField) (rest : Bytes)
    → Fits f
    → read_message_on (suc fuel) (write_field f ++ rest) ≡ as_read f ∷ read_message_on fuel rest
unfolding write_field var_field msg_field
read_one fuel (number field value) rest (small, fits) =
    rw (append_assoc (tag field 0) (varint value) rest)
      (read_tag fuel field 0 _ small (omega arith) ∙ read_field-number _ field value rest fits)
read_one fuel (chunk field body) rest (small, fits) =
    rw
      (
        append_assoc (tag field 2 ++ varint (length body)) body rest,
        append_assoc (tag field 2) (varint (length body)) (body ++ rest),
      )
      (read_tag fuel field 2 _ small (omega arith) ∙ read_field-chunk _ field body rest fits)

write_field-nonempty : (f : WireField) → 0 < length (write_field f)
unfolding write_field var_field msg_field tag
write_field-nonempty (number field value) =
    omega (
      arith,
      varint-nonempty (field * 8 + 0),
      length-append (varint (field * 8 + 0)) (varint value),
    )
write_field-nonempty (chunk field body) = omega (
  arith,
  varint-nonempty (field * 8 + 2),
  length-append (varint (field * 8 + 2)) (varint (length body)),
  length-append (varint (field * 8 + 2) ++ varint (length body)) body,
)

read_message_on-write_fields :
    (fuel : ℕ) (fs : List WireField)
    → All Fits fs
    → length (write_fields fs) ≤ fuel
    → read_message_on fuel (write_fields fs) ≡ map as_read fs
unfolding write_fields read_message_on
read_message_on-write_fields zero [] h enough = refl
read_message_on-write_fields (suc fuel) [] h enough = refl
read_message_on-write_fields zero (f ∷ fs) h enough =
    absurd (omega (arith, write_field-nonempty f, length-append (write_field f) (write_fields fs)))
read_message_on-write_fields (suc fuel) (f ∷ fs) h enough =
    let fewer : length (write_fields fs) ≤ fuel =
      omega (arith, write_field-nonempty f, length-append (write_field f) (write_fields fs)) in
    read_one fuel f (write_fields fs) h.0
    ∙ ap (◌∷◌ (as_read f)) (read_message_on-write_fields fuel fs h.1 fewer)

-- What `msgField`, `strField` and `varField` append, in any number and order, `readMessage` gives
-- back as the same fields in the same order, when lengths and values are of 64 bits.
pub read_message-write_fields :
    (fs : List WireField) → All Fits fs → read_message (write_fields fs) ≡ map as_read fs
unfolding read_message
read_message-write_fields fs h =
    read_message_on-write_fields (length (write_fields fs)) fs h (omega arith)
