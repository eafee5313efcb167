-- ===== src/Gemini/Said.antt =====
-- What a Gemini request is to say of a message's content, of its calls and of the names of tools, and
-- that the helpers of `openai_to_gemini_request` say it.
use apiforge.Base.{
  ◌≡◌, refl, ◌∙◌, ap, sym, String, Option, List, [], ◌∷◌, ◌++◌, map, none, some, inl, inr, lookup,
  insert, lookup-insert, eq_iff, Bool-cases, Option-cases, if◌then◌else◌, str_eq,
}
use apiforge.Base.Text.{text_append, has_prefix, cut, drop_text}
use apiforge.Json.{Json, obj}
use apiforge.Chat.{ContentPart, Content, absent, null_content, malformed, plain, parts, ToolCall}
use apiforge.Gemini
use apiforge.Gemini.{
  ChatRequest, text_of_parts, extract_text, extension, mime_of, media_type, image_part,
  content_part, safe_json, Part, text_part, inline_data, file_data, function_call,
  function_response, content_parts, Sorted, unsorted, push, call_parts, name_calls, name_of,
  or_blank, add_message, add_messages, openai_to_gemini_request,
}

-- The name of the last of some calls with an id.
abbrev pub last_named : String → List ToolCall → Option String
last_named id [] = none
last_named id (call ∷ rest) = elim (last_named id rest) [
  | some name ↦ some name
  | none ↦ if str_eq call.id id then some call.name else none
]

abbrev pub name_said : List ToolCall → String → String
name_said calls id = elim (last_named id calls) [ none ↦ "tool" | some name ↦ name ]

or_else : Option String → Option String → Option String
or_else none o = o
or_else (some name) o = some name

or_else-none : (o : Option String) → or_else o none ≡ o
unfolding or_else
or_else-none none = refl
or_else-none (some name) = refl

lookup-name_calls :
    (names : List (String × String)) (calls : List ToolCall) (id : String)
    → lookup id (name_calls names calls) ≡ or_else (last_named id calls) (lookup id names)
unfolding name_calls or_else
lookup-name_calls names [] id = refl
lookup-name_calls names (call ∷ rest) id =
    lookup-name_calls (insert call.id call.name names) rest id
    ∙ elim (Option-cases (last_named id rest)) [
      | inr (name, later) ↦ rw later refl
      | inl no_later ↦ elim (Bool-cases (str_eq call.id id)) [
        | inl same ↦ rw (no_later, same) (lookup-insert call.id id call.name names ∙ rw same refl)
        | inr differs ↦
            rw (no_later, differs) (lookup-insert call.id id call.name names ∙ rw differs refl)
      ]
    ]

pub name_calls-append :
    (names : List (String × String)) (calls more : List ToolCall)
    → name_calls (name_calls names calls) more ≡ name_calls names (calls ++ more)
unfolding name_calls
name_calls-append names [] more = refl
name_calls-append names (call ∷ rest) more =
    name_calls-append (insert call.id call.name names) rest more

pub name_of-said :
    (calls : List ToolCall) (id : String) → name_of (name_calls [] calls) id ≡ name_said calls id
unfolding name_of lookup or_else
name_of-said calls id =
    ap (λ o. elim o [ none ↦ "tool" | some name ↦ name ])
      (lookup-name_calls [] calls id ∙ or_else-none (last_named id calls))

-- The texts of a content, and its parts in order; a content of neither form is one blank text.
abbrev pub texts_said : List ContentPart → String
texts_said [] = ""
texts_said (p ∷ rest) = text_append (if str_eq p.type "text" then p.text else "") (texts_said rest)

abbrev pub text_said : Content → String
text_said (plain s) = s
text_said (parts ps) = texts_said ps
text_said _ = ""

-- The type of a data URL stands before its first comma and semicolon, that of another URL is told by
-- its extension.
abbrev pub data_type : String → String
data_type url =
    let described = drop_text 5 (cut b',' url).0 in
    if str_eq described "" then "image/png" else (cut b';' described).0

abbrev pub part_said : ContentPart → Part
part_said p =
    if str_eq p.type "text"
    then text_part p.text
    else if has_prefix p.image_url "data:"
    then inline_data (data_type p.image_url) (cut b',' p.image_url).1
    else file_data p.image_url (mime_of (extension p.image_url))

abbrev pub parts_said : Content → List Part
parts_said (plain s) = text_part s ∷ []
parts_said (parts ps) = map part_said ps
parts_said _ = text_part "" ∷ []

-- A text that is not empty and the calls, with a blank text in place of nothing.
abbrev pub call_said : (String → Option Json) → ToolCall → Part
call_said parse call =
    function_call call.name (elim (parse call.arguments) [ none ↦ obj [] | some v ↦ v ])

abbrev pub answer_said : String → List Part → List Part
answer_said t [] = text_part t ∷ []
answer_said t (p ∷ ps) = if str_eq t "" then p ∷ ps else text_part t ∷ p ∷ ps

texts_said-parts : (ps : List ContentPart) → text_of_parts ps ≡ texts_said ps
unfolding text_of_parts
texts_said-parts [] = refl
texts_said-parts (p ∷ ps) =
    ap (text_append (if str_eq p.type "text" then p.text else "")) (texts_said-parts ps)

pub extract_text-said : (c : Content) → extract_text c ≡ text_said c
unfolding extract_text
extract_text-said absent = refl
extract_text-said null_content = refl
extract_text-said malformed = refl
extract_text-said (plain s) = refl
extract_text-said (parts ps) = texts_said-parts ps

map-part_said : (ps : List ContentPart) → map content_part ps ≡ map part_said ps
unfolding content_part image_part media_type
map-part_said [] = refl
map-part_said (p ∷ ps) = ap (◌∷◌ (part_said p)) (map-part_said ps)

pub content_parts-said : (c : Content) → content_parts c ≡ parts_said c
unfolding content_parts
content_parts-said absent = refl
content_parts-said null_content = refl
content_parts-said malformed = refl
content_parts-said (plain s) = refl
content_parts-said (parts ps) = map-part_said ps

pub call_parts-said :
    (parse : String → Option Json) (calls : List ToolCall)
    → call_parts parse calls ≡ map (call_said parse) calls
unfolding call_parts safe_json
call_parts-said parse [] = refl
call_parts-said parse (call ∷ rest) = ap (◌∷◌ (call_said parse call)) (call_parts-said parse rest)

pub or_blank-said :
    (t : String) (calls : List Part) → or_blank (Gemini.said t ++ calls) ≡ answer_said t calls
unfolding Gemini.said
or_blank-said t [] = elim (Bool-cases (str_eq t "")) [
  | inl blank ↦ rw blank (ap (λ x. text_part x ∷ []) (sym ((eq_iff t "").0 blank)))
  | inr given ↦ rw given refl
]
or_blank-said t (p ∷ ps) = elim (Bool-cases (str_eq t "")) [
  | inl blank ↦ rw blank refl
  | inr given ↦ rw given refl
]
