-- ===== src/Cursor/Request.antt =====
-- The chat request: what the server reads out of `encodeChatRequest`.
use apiforge.Base.{◌≡◌, List, [], ◌∷◌, ◌++◌, map}
use apiforge.Base.Text.{Bytes}
use apiforge.Cursor.{str_field, CursorMessage, role_value, encode_turn, read_message}
use apiforge.Cursor.Messages.{WireField, number, chunk, as_read}

abbrev pub turn_fields : CursorMessage → List WireField
turn_fields m = chunk 1 m.text ∷ number 2 (role_value m.role) ∷ chunk 13 m.bubble_id ∷ []

abbrev pub settings : Bytes → Bytes → List WireField
settings model conversation_id =
    chunk 5 (str_field 1 model) ∷ number 22 1 ∷ chunk 23 conversation_id ∷ number 46 1 ∷ []

abbrev pub request_fields : List CursorMessage → Bytes → Bytes → List WireField
request_fields messages model conversation_id =
    map (λ m. chunk 1 (encode_turn m)) messages ++ settings model conversation_id

abbrev IsRead : CursorMessage → Type 0
IsRead m = read_message (encode_turn m) ≡ map as_read (turn_fields m)
