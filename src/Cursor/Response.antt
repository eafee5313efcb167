-- ===== src/Cursor/Response.antt =====
-- The streamed answer: the text that `extractResponseText` takes out of a payload.
use apiforge.Base.{
  ℕ, ◌^◌, ◌<◌, ◌≡◌, refl, ◌∙◌, ap, Bool, false, some, List, [], ◌∷◌, ◌++◌, map, ◌==◌, arith,
  if◌then◌else◌, length, All,
}
use apiforge.Base.Text.{Bytes}
use apiforge.Cursor.{texts_of, inner_texts, response_texts, extract_response_text}
use apiforge.Cursor.Messages.{
  WireField, number, chunk, write_fields, as_read, Fits, read_message-write_fields,
}

-- The outer message is a sequence of sub-messages in field 2, between fields of other numbers.
pub data Part : Type 0 where
  delta : List WireField → Part
  other : WireField → Part

abbrev pub field_of : Part → WireField
field_of (delta inner) = chunk 2 (write_fields inner)
field_of (other f) = f

abbrev pub is_text : ℕ → WireField → Bool
is_text n (number field value) = field == n
is_text n (chunk field body) = field == n

abbrev pub IsPart : Part → Type 0
IsPart (delta inner) = All Fits inner × (length (write_fields inner) < 2 ^ 64)
IsPart (other f) = Fits f × (is_text 2 f ≡ false)

-- The bodies of field 1, one after another.
abbrev pub text_in : List WireField → Bytes
text_in [] = []
text_in (number field value ∷ rest) = text_in rest
text_in (chunk field body ∷ rest) = (if field == 1 then body else []) ++ text_in rest

abbrev pub text_of_parts : List Part → Bytes
text_of_parts [] = []
text_of_parts (delta inner ∷ rest) = text_in inner ++ text_of_parts rest
text_of_parts (other f ∷ rest) = text_of_parts rest

texts_of-as_read : (fs : List WireField) → texts_of (map as_read fs) ≡ text_in fs
unfolding texts_of
texts_of-as_read [] = refl
texts_of-as_read (number field value ∷ rest) = ground (arith, texts_of-as_read rest)
texts_of-as_read (chunk field body ∷ rest) = ground (arith, texts_of-as_read rest)

inner_texts-write_fields :
    (inner : List WireField)
    → All Fits inner
    → inner_texts (some (write_fields inner)) ≡ text_in inner
inner_texts-write_fields inner h =
    ap texts_of (read_message-write_fields inner h) ∙ texts_of-as_read inner

response_texts-parts :
    (parts : List Part)
    → All IsPart parts
    → response_texts (map as_read (map field_of parts)) ≡ text_of_parts parts
unfolding response_texts
response_texts-parts [] h = refl
response_texts-parts (delta inner ∷ rest) h =
    rw (inner_texts-write_fields inner h.0.0, response_texts-parts rest h.1) refl
response_texts-parts (other (number field value) ∷ rest) h =
    rw (h.0.1, response_texts-parts rest h.1) refl
response_texts-parts (other (chunk field body) ∷ rest) h =
    rw (h.0.1, response_texts-parts rest h.1) refl

parts-Fits : (parts : List Part) → All IsPart parts → All Fits (map field_of parts)
parts-Fits [] h = tt
parts-Fits (delta inner ∷ rest) h = ((omega arith, h.0.1), parts-Fits rest h.1)
parts-Fits (other f ∷ rest) h = (h.0.0, parts-Fits rest h.1)

-- A payload may batch any number of sub-messages in field 2 between other fields: the text is all of
-- their fields 1, in order, and nothing of any other field, when lengths and values are of 64 bits.
pub extract_response_text-write_fields :
    (parts : List Part)
    → All IsPart parts
    → extract_response_text (write_fields (map field_of parts)) ≡ text_of_parts parts
unfolding extract_response_text
extract_response_text-write_fields parts h =
    ap response_texts (read_message-write_fields (map field_of parts) (parts-Fits parts h))
    ∙ response_texts-parts parts h
