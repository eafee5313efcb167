-- ===== src/Cursor.antt =====
-- internal/provider/cursor/protobuf.go: the protobuf and Connect-RPC wire format of the Cursor
-- provider. Bytes are natural numbers below 256, and a Go string is its bytes. A position in a buffer
-- is the suffix of the buffer from there on. A `uint64` is a natural number below 2 ^ 64; the
-- or-operations of the code are on disjoint bits, so they are sums.
pub mod Varint
pub mod Messages
pub mod Request
pub mod Fuel
pub mod Chat
mod Tests
pub mod Response
pub mod Frames
use apiforge.Base.{
  ℕ, zero, suc, ◌+◌, ◌*◌, ◌/◌, ◌%◌, ◌^◌, String, Bool, true, false, Option, none, some, List, [],
  ◌∷◌, ◌++◌, ltb, ◌==◌, if◌then◌else◌, str_eq, length, take, drop,
}
use apiforge.Base.Text.{Bytes}

abbrev pub max_frame_bytes : ℕ
max_frame_bytes = 64 * 2 ^ 20

-- The loop of `varint`; a `uint64` has at most ten groups of seven bits (Cursor/Varint).
unfoldable pub varint_on : ℕ → ℕ → Bytes
varint_on zero n = []
varint_on (suc rounds) n =
    let rest = varint_on rounds (n / 128) in
    if n / 128 == 0 then n % 128 ∷ [] else (n % 128 + 128) ∷ rest

unfoldable pub varint : ℕ → Bytes
unfolding varint_on
varint n = varint_on 10 n

unfoldable pub tag : ℕ → ℕ → Bytes
tag field wire = varint (field * 8 + wire)

unfoldable pub msg_field : ℕ → Bytes → Bytes
unfolding tag
msg_field field body = tag field 2 ++ varint (length body) ++ body

abbrev pub str_field : ℕ → Bytes → Bytes
str_field field value = msg_field field value

unfoldable pub var_field : ℕ → ℕ → Bytes
unfolding tag
var_field field value = tag field 0 ++ varint value

pub record CursorMessage : Type 0 where
  pub text : Bytes
  pub role : String
  pub bubble_id : Bytes

abbrev pub role_value : String → ℕ
role_value role = if str_eq role "user" then 1 else 2

unfoldable pub encode_turn : CursorMessage → Bytes
encode_turn m = str_field 1 m.text ++ var_field 2 (role_value m.role) ++ str_field 13 m.bubble_id

unfoldable pub encode_turns : List CursorMessage → Bytes
unfolding encode_turn
encode_turns [] = []
encode_turns (m ∷ rest) = msg_field 1 (encode_turn m) ++ encode_turns rest

-- The body of field 1 of the request.
unfoldable pub encode_inner : List CursorMessage → Bytes → Bytes → Bytes
unfolding encode_turns
encode_inner messages model conversation_id =
    encode_turns messages
    ++ msg_field 5 (str_field 1 model)
    ++ var_field 22 1
    ++ str_field 23 conversation_id
    ++ var_field 46 1

unfoldable pub encode_chat_request : List CursorMessage → Bytes → Bytes → Bytes
unfolding encode_inner
encode_chat_request messages model conversation_id =
    msg_field 1 (encode_inner messages model conversation_id)

pub record ProtoField : Type 0 where
  pub field : ℕ
  pub wire : ℕ
  pub bytes : Option Bytes
  pub value : ℕ

-- The loop of `readVarintAt`: a shift by 64 or more gives 0, and the buffer may end early.
unfoldable pub read_varint_from : ℕ → ℕ → Bytes → ℕ × Bytes
read_varint_from shift result [] = (result, [])
read_varint_from shift result (b ∷ rest) =
    let added = result + (b % 128) * 2 ^ shift % 2 ^ 64 in
    let later = read_varint_from (shift + 7) added rest in
    if ltb b 128 then (added, rest) else later

unfoldable pub read_varint_at : Bytes → ℕ × Bytes
unfolding read_varint_from
read_varint_at buf = read_varint_from 0 0 buf

-- A length-delimited field, at its length and what follows: too long a length ends the reading.
unfoldable pub read_chunk : (Bytes → List ProtoField) → ℕ → ℕ × Bytes → List ProtoField
read_chunk more field (l, rest) = elim (ltb (length rest) l) [
  | true ↦ []
  | false ↦
      record { field = field; wire = 2; bytes = some (take l rest); value = 0 } ∷ more (drop l rest)
]

-- The switch of `readMessage` on the wire type; `more` is the loop from the next position on.
unfoldable pub read_field : (Bytes → List ProtoField) → ℕ → ℕ → Bytes → List ProtoField
unfolding read_chunk
read_field more field wire buf =
    let r = read_varint_at buf in
    elim (wire == 0) [
      | true ↦ record { field = field; wire = wire; bytes = none; value = r.0 } ∷ more r.1
      | false ↦ elim (wire == 2) [
        | true ↦ read_chunk more field r
        | false ↦ elim (wire == 5) [
          | true ↦ more (drop 4 buf)
          | false ↦ elim (wire == 1) [ true ↦ more (drop 8 buf) | false ↦ [] ]
        ]
      ]
    ]

-- The loop of `readMessage`, on fuel; a round takes a byte at least (Cursor/Messages).
unfoldable pub read_message_on : ℕ → Bytes → List ProtoField
unfolding read_field
read_message_on fuel [] = []
read_message_on zero (b ∷ buf) = []
read_message_on (suc fuel) (b ∷ buf) =
    let key = read_varint_at (b ∷ buf) in
    read_field (read_message_on fuel) (key.0 / 8) (key.0 % 8) key.1

unfoldable pub read_message : Bytes → List ProtoField
unfolding read_message_on
read_message buf = read_message_on (length buf) buf

-- `f.bytes != nil`: the bytes of a field, or nothing to append.
abbrev pub bytes_of : Option Bytes → Bytes
bytes_of none = []
bytes_of (some bytes) = bytes

-- The inner loop of `extractResponseText`.
unfoldable pub texts_of : List ProtoField → Bytes
texts_of [] = []
texts_of (f ∷ rest) = (if f.field == 1 then bytes_of f.bytes else []) ++ texts_of rest

abbrev pub inner_texts : Option Bytes → Bytes
inner_texts none = []
inner_texts (some inner) = texts_of (read_message inner)

unfoldable pub response_texts : List ProtoField → Bytes
unfolding texts_of
response_texts [] = []
response_texts (f ∷ rest) =
    (if f.field == 2 then inner_texts f.bytes else []) ++ response_texts rest

unfoldable pub extract_response_text : Bytes → Bytes
unfolding response_texts
extract_response_text payload = response_texts (read_message payload)
