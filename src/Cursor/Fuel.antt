-- ===== src/Cursor/Fuel.antt =====
-- Arbitrary input to `readMessage`: each round of its loop takes a byte at least.
use apiforge.Base.{
  ℕ, zero, suc, ◌+◌, ◌*◌, ◌/◌, ◌%◌, ◌^◌, ◌≤◌, ◌≡◌, refl, inl, inr, List, [], ◌∷◌, arith, ltb,
  length, drop, Bool-cases,
}
use apiforge.Base.Text.{Bytes}
use apiforge.Cursor.{
  ProtoField, read_varint_from, read_varint_at, read_chunk, read_field, read_message_on,
  read_message,
}

length-read_varint_from :
    (shift result : ℕ) (buf : Bytes) → length (read_varint_from shift result buf).1 ≤ length buf
unfolding read_varint_from
length-read_varint_from shift result [] = omega arith
length-read_varint_from shift result (b ∷ rest) =
    ground (arith, length-read_varint_from (shift + 7) (result + b % 128 * 2 ^ shift % 2 ^ 64) rest)

length-read_varint_at-cons :
    (b : ℕ) (buf : Bytes) → length (read_varint_at (b ∷ buf)).1 ≤ length buf
unfolding read_varint_at read_varint_from
length-read_varint_at-cons b buf =
    ground (arith, length-read_varint_from 7 (0 + b % 128 * 2 ^ 0 % 2 ^ 64) buf)

length-drop : (n : ℕ) (buf : Bytes) → length (drop n buf) ≤ length buf
length-drop zero buf = omega arith
length-drop (suc n) [] = omega arith
length-drop (suc n) (b ∷ buf) = omega (arith, length-drop n buf)

-- Two continuations that agree on every buffer of at most `n` bytes.
abbrev AgreeTo : ℕ → (Bytes → List ProtoField) → (Bytes → List ProtoField) → Type 0
AgreeTo n more other = (buf : Bytes) → length buf ≤ n → more buf ≡ other buf

read_chunk-agree :
    (more other : Bytes → List ProtoField) (field n l : ℕ) (rest : Bytes)
    → AgreeTo n more other
    → length rest ≤ n
    → read_chunk more field (l, rest) ≡ read_chunk other field (l, rest)
unfolding read_chunk
read_chunk-agree more other field n l rest h small = elim (Bool-cases (ltb (length rest) l)) [
  | inl e ↦ rw (e, read_chunk) refl
  | inr e ↦ rw (e, read_chunk, h (drop l rest) (omega (arith, length-drop l rest))) refl
]

read_field-agree :
    (more other : Bytes → List ProtoField) (field wire n : ℕ) (buf : Bytes)
    → AgreeTo n more other
    → length buf ≤ n
    → read_field more field wire buf ≡ read_field other field wire buf
unfolding read_field read_varint_at
read_field-agree more other field wire n buf h small =
    let shorter = length-read_varint_from 0 0 buf in
    let after = h (read_varint_at buf).1 (omega arith) in
    let chunk =
      read_chunk-agree more other field n (read_varint_at buf).0 (read_varint_at buf).1 h
        (omega arith) in
    let four = h (drop 4 buf) (omega (arith, length-drop 4 buf)) in
    let eight = h (drop 8 buf) (omega (arith, length-drop 8 buf)) in
    ground (arith, after, chunk, four, eight)

read_message_on-agree :
    (fuel more_fuel : ℕ) (buf : Bytes)
    → length buf ≤ fuel
    → length buf ≤ more_fuel
    → read_message_on fuel buf ≡ read_message_on more_fuel buf
unfolding read_message_on
read_message_on-agree zero zero [] h k = refl
read_message_on-agree zero (suc g) [] h k = refl
read_message_on-agree (suc f) zero [] h k = refl
read_message_on-agree (suc f) (suc g) [] h k = refl
read_message_on-agree zero g (b ∷ buf) h k = absurd (omega arith)
read_message_on-agree (suc f) zero (b ∷ buf) h k = absurd (omega arith)
read_message_on-agree (suc f) (suc g) (b ∷ buf) h k =
    let key = read_varint_at (b ∷ buf) in
    read_field-agree (read_message_on f) (read_message_on g) (key.0 / 8) (key.0 % 8) (length buf)
      key.1 (λ later small. read_message_on-agree f g later (omega arith) (omega arith))
      (length-read_varint_at-cons b buf)

-- On every input, malformed ones included, the loop of `readMessage` ends within as many rounds as
-- the input has bytes: more fuel gives the same fields.
pub read_message_on-fuel :
    (fuel : ℕ) (buf : Bytes) → length buf ≤ fuel → read_message_on fuel buf ≡ read_message buf
unfolding read_message
read_message_on-fuel fuel buf h = read_message_on-agree fuel (length buf) buf h (omega arith)
