-- ===== src/Cursor/Tests.antt =====
-- The wire format's theorems on small messages.
use apiforge.Base.{◌≡◌, refl, Option, none, List, [], ◌∷◌, ◌++◌, map, arith}
use apiforge.Base.Text.{Bytes}
use apiforge.Cursor.{
  varint_on, varint, tag, msg_field, var_field, CursorMessage, read_message_on, read_message,
}
use apiforge.Cursor.Messages.{
  WireField, number, chunk, write_field, write_fields, as_read, read_message-write_fields,
}
use apiforge.Cursor.Fuel.{read_message_on-fuel}
use apiforge.Cursor.Response.{Part, delta, other}
use apiforge.Cursor.Frames.{stream_deltas}
use apiforge.Cursor.Frames.Stream.{send, short}
use apiforge.Cursor.Frames.Delivery.{
  Shipped, plain, damaged, trailer, wire, texts, stream_deltas-texts,
}

abbrev fields : List WireField
fields = chunk 1 (104 ∷ 105 ∷ []) ∷ number 2 300 ∷ chunk 13 [] ∷ []

read_message-write_fields_example : read_message (write_fields fields) ≡ map as_read fields
read_message-write_fields_example =
    read_message-write_fields fields
      ((omega arith, omega arith), ((omega arith, omega arith), ((omega arith, omega arith), tt)))

-- A field of seven bytes that are not there.
read_message_on-fuel_example : read_message_on 9 (10 ∷ 7 ∷ 1 ∷ []) ≡ read_message (10 ∷ 7 ∷ 1 ∷ [])
read_message_on-fuel_example = read_message_on-fuel 9 (10 ∷ 7 ∷ 1 ∷ []) (omega arith)

abbrev question : CursorMessage
question = record { text = 104 ∷ 105 ∷ []; role = "user"; bubble_id = 98 ∷ [] }

abbrev batch : List Part
batch =
    delta (chunk 1 (104 ∷ []) ∷ [])
    ∷ other (number 3 1)
    ∷ delta (number 1 5 ∷ chunk 1 (105 ∷ []) ∷ [])
    ∷ []

-- A decompressor that accepts nothing.
abbrev no_gzip : Bytes → Option Bytes
no_gzip payload = none

abbrev frames : List Shipped
frames = plain batch ∷ trailer 2 (123 ∷ 125 ∷ []) ∷ damaged (9 ∷ []) ∷ []

stream_deltas-texts_example :
    stream_deltas no_gzip (send (map wire frames) ++ (0 ∷ 0 ∷ [])) ≡ texts frames
unfolding write_fields write_field msg_field var_field tag varint varint_on
stream_deltas-texts_example =
    stream_deltas-texts no_gzip frames (0 ∷ 0 ∷ [])
      (
        (
          (((omega arith, omega arith), tt), omega arith),
          (
            ((omega arith, omega arith), refl),
            ((((omega arith, omega arith), ((omega arith, omega arith), tt)), omega arith), tt),
          ),
        ),
        (refl, (refl, tt)),
      )
      (omega arith, (omega arith, (omega arith, tt))) (short (0 ∷ 0 ∷ []) (omega arith))
