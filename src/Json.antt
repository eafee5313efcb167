-- ===== src/Json.antt =====
-- Decoded JSON, as `map[string]any` and `any` hold it, and the accessors `str` and `intOf` that the
-- translate.go files declare. A number is kept as the integer that `intOf` cuts it to. A missing key
-- reads as null, as a missing entry of a Go map does. `events` is the loop head that every reader of
-- an upstream stream begins with; the decoder is its parameter, where `none` is an error.
use apiforge.Base.{
  ◌≡◌, String, Bool, true, false, ◌||◌, Option, none, some, List, [], ◌∷◌, if◌then◌else◌, str_eq,
  eq_iff, ℤ, pos, arith,
}
use apiforge.Base.Text.{Bytes, codes, same_bytes}
use apiforge.Sse
use apiforge.Sse.{Event}

mutual
  pub data Json : Type 0 where
    null : Json
    bool : Bool → Json
    number : ℤ → Json
    text : String → Json
    array : Items → Json
    object : Fields → Json

  pub data Items : Type 0 where
    end : Items
    item : Json → Items → Items

  pub data Fields : Type 0 where
    empty : Fields
    field : String → Json → Fields → Fields

-- The literals `[]any{…}` and `map[string]any{…}`.
abbrev pub items : List Json → Items
items [] = end
items (x ∷ rest) = item x (items rest)

abbrev pub fields : List (String × Json) → Fields
fields [] = empty
fields ((k, v) ∷ rest) = field k v (fields rest)

abbrev pub obj : List (String × Json) → Json
obj entries = object (fields entries)

abbrev pub arr : List Json → Json
arr xs = array (items xs)

unfoldable pub get_in : Fields → String → Json
get_in empty key = null
get_in (field k v rest) key = if str_eq k key then v else get_in rest key

-- `m[key]`; of anything but a map, which decodes to a nil one, null.
unfoldable pub get : Json → String → Json
unfolding get_in
get (object fs) key = get_in fs key
get _ key = null

abbrev pub is_object : Json → Bool
is_object (object fs) = true
is_object _ = false

unfoldable pub str : Json → String
str (text s) = s
str _ = ""

unfoldable pub int_of : Json → ℤ
int_of (number n) = n
int_of _ = pos 0

-- One frame: an empty one, the terminal one and what is no JSON object are skipped.
abbrev pub decoded : (Bytes → Option Json) → Bytes → Option Json
decoded parse payload =
    if same_bytes payload [] || same_bytes payload (codes "[DONE]") then none else parse payload

unfoldable pub events_of : (Bytes → Option Json) → List Event → List Json
events_of parse [] = []
events_of parse (e ∷ rest) = elim (decoded parse e.«data») [
  | none ↦ events_of parse rest
  | some evt ↦ evt ∷ events_of parse rest
]

unfoldable pub events : (Bytes → Option Json) → Bytes → List Json
unfolding events_of
events parse upstream = events_of parse (Sse.frames upstream)

-- `delete(m, key)` and `m[key] = v`.
unfoldable pub delete_in : Fields → String → Fields
delete_in empty key = empty
delete_in (field k v rest) key =
    if str_eq k key then delete_in rest key else field k v (delete_in rest key)

unfoldable pub put_in : Fields → String → Json → Fields
put_in empty key value = field key value empty
put_in (field k v rest) key value =
    if str_eq k key then field key value rest else field k v (put_in rest key value)

abbrev pub delete_all : Fields → List String → Fields
delete_all fs [] = fs
delete_all fs (key ∷ rest) = delete_all (delete_in fs key) rest

pub get_in-delete_in :
    (fs : Fields) (key other : String)
    → get_in (delete_in fs key) other ≡ (if str_eq key other then null else get_in fs other)
unfolding get_in delete_in
get_in-delete_in empty key other = ground arith
get_in-delete_in (field k v rest) key other =
    let after = get_in-delete_in rest key other in
    ground (arith, after, eq_iff k key, eq_iff k other, eq_iff key other)

pub get_in-put_in :
    (fs : Fields) (key other : String) (value : Json)
    → get_in (put_in fs key value) other ≡ (if str_eq key other then value else get_in fs other)
unfolding get_in put_in
get_in-put_in empty key other value = ground arith
get_in-put_in (field k v rest) key other value =
    let after = get_in-put_in rest key other value in
    ground (arith, after, eq_iff k key, eq_iff k other, eq_iff key other)
