-- ===== src/Gemini.antt =====
-- internal/provider/gemini/translate.go: the way of an OpenAI chat request to the inner request of Code
-- Assist. The decoder of JSON texts is the parameter `parse`, where `none` is an error; a number other
-- than a token count is kept as its JSON text.
pub mod Said
pub mod Turns
pub mod Stream
pub mod Streaming
mod Tests
use Prim.Native.Char.{code}
use apiforge.Base.{
  ℕ, ◌+◌, ◌==◌, leb, String, Bool, true, false, ◌&&◌, ◌||◌, Option, none, some, List, [], ◌∷◌, ◌++◌,
  map, if◌then◌else◌, str_eq, lookup, insert, ℤ, pos, is_pos,
}
use apiforge.Base.Text.{Bytes, codes, same_bytes, text_append, has_prefix, cut, drop_text}
use apiforge.Json.{Json, text, obj}
use apiforge.Chat.{
  ContentPart, Content, absent, null_content, malformed, plain, parts, ToolCall, ChatMessage,
  ChatTool,
}
use apiforge.Chat.Turns.{Turn, onto_last}
use apiforge.Claude.{Stop, no_stop, unreadable_stop, one_stop, stop_list}

pub record ChatRequest : Type 0 where
  pub model : String
  pub messages : List ChatMessage
  pub tools : List ChatTool
  pub stream : Bool
  pub temperature : Option String
  pub top_p : Option String
  pub max_tokens : Option ℤ
  pub max_completion_tokens : Option ℤ
  pub stop : Stop

unfoldable pub text_of_parts : List ContentPart → String
text_of_parts [] = ""
text_of_parts (p ∷ rest) =
    text_append (if str_eq p.type "text" then p.text else "") (text_of_parts rest)

unfoldable pub extract_text : Content → String
unfolding text_of_parts
extract_text absent = ""
extract_text null_content = ""
extract_text malformed = ""
extract_text (plain s) = s
extract_text (parts ps) = text_of_parts ps

pub data Part : Type 0 where
  text_part : String → Part
  inline_data : String → String → Part
  file_data : String → String → Part
  function_call : String → Json → Part
  function_response : String → String → Part

-- What follows the last full stop.
unfoldable pub after_dot : String → Option String
after_dot String.[] = none
after_dot (String.◌∷◌ c s) = elim (after_dot s) [
  | none ↦ if code c == b'.' then some s else none
  | some ext ↦ some ext
]

abbrev lower : ℕ → ℕ
lower c = if leb b'A' c && leb c b'Z' then c + 32 else c

-- The extension of a URL, without its query; a text without a full stop is kept as it is.
unfoldable pub extension : String → Bytes
unfolding after_dot
extension url = elim (after_dot (cut b'?' url).0) [
  | none ↦ codes (cut b'?' url).0
  | some ext ↦ map lower (codes ext)
]

unfoldable pub mime_of : Bytes → String
mime_of ext =
    if same_bytes ext (codes "jpg") || same_bytes ext (codes "jpeg")
    then "image/jpeg"
    else if same_bytes ext (codes "webp")
    then "image/webp"
    else "image/png"

unfoldable pub media_type : String → String
media_type meta =
    let rest = drop_text 5 meta in if str_eq rest "" then "image/png" else (cut b';' rest).0

unfoldable pub image_part : String → Part
unfolding extension mime_of media_type
image_part url =
    if has_prefix url "data:"
    then inline_data (media_type (cut b',' url).0) (cut b',' url).1
    else file_data url (mime_of (extension url))

unfoldable pub content_part : ContentPart → Part
unfolding image_part
content_part p = if str_eq p.type "text" then text_part p.text else image_part p.image_url

unfoldable pub content_parts : Content → List Part
unfolding content_part
content_parts absent = text_part "" ∷ []
content_parts null_content = text_part "" ∷ []
content_parts malformed = text_part "" ∷ []
content_parts (plain s) = text_part s ∷ []
content_parts (parts ps) = map content_part ps

unfoldable pub safe_json : (String → Option Json) → String → Json
safe_json parse s = elim (parse s) [ none ↦ obj [] | some v ↦ v ]

-- The variables `contents`, `systemTexts` and `toolNames` of the loop.
pub record Sorted : Type 0 where
  pub contents : List (Turn Part)
  pub system_texts : List String
  pub tool_names : List (String × String)

abbrev pub unsorted : Sorted
unsorted = record { contents = []; system_texts = []; tool_names = [] }

abbrev pub push : Sorted → String → List Part → Sorted
push s role ps = record s { contents = onto_last s.contents role ps }

unfoldable pub said : String → List Part
said t = if str_eq t "" then [] else text_part t ∷ []

unfoldable pub call_parts : (String → Option Json) → List ToolCall → List Part
unfolding safe_json
call_parts parse [] = []
call_parts parse (call ∷ rest) =
    function_call call.name (safe_json parse call.arguments) ∷ call_parts parse rest

unfoldable pub name_calls : List (String × String) → List ToolCall → List (String × String)
name_calls names [] = names
name_calls names (call ∷ rest) = name_calls (insert call.id call.name names) rest

-- `name := "tool"`, unless the id is known.
unfoldable pub name_of : List (String × String) → String → String
name_of names id = elim (lookup id names) [ none ↦ "tool" | some n ↦ n ]

abbrev pub or_blank : List Part → List Part
or_blank [] = text_part "" ∷ []
or_blank (p ∷ ps) = p ∷ ps

-- The switch on one message's role.
unfoldable pub add_message : (String → Option Json) → Sorted → ChatMessage → Sorted
unfolding extract_text content_parts said call_parts name_calls name_of
add_message parse s m =
    if str_eq m.role "system" || str_eq m.role "developer"
    then record s {
      system_texts =
          s.system_texts
          ++ (if str_eq (extract_text m.content) "" then [] else extract_text m.content ∷ []);
    }
    else if str_eq m.role "tool"
    then push s "user"
        (function_response (name_of s.tool_names m.tool_call_id) (extract_text m.content) ∷ [])
    else if str_eq m.role "assistant"
    then push (record s { tool_names = name_calls s.tool_names m.tool_calls }) "model"
        (or_blank (said (extract_text m.content) ++ call_parts parse m.tool_calls))
    else push s "user" (content_parts m.content)

unfoldable pub add_messages : (String → Option Json) → Sorted → List ChatMessage → Sorted
unfolding add_message
add_messages parse s [] = s
add_messages parse s (m ∷ rest) = add_messages parse (add_message parse s m) rest

unfoldable pub max_tokens : ChatRequest → ℤ
max_tokens req = elim req.max_completion_tokens [
  | some n ↦ n
  | none ↦ elim req.max_tokens [ none ↦ pos 0 | some n ↦ n ]
]

unfoldable pub stop_sequences : Stop → List String
stop_sequences no_stop = []
stop_sequences unreadable_stop = []
stop_sequences (one_stop s) = s ∷ []
stop_sequences (stop_list xs) = xs

-- A key is left out where there is none; no sequences are no `stopSequences`.
pub record GenerationConfig : Type 0 where
  pub temperature : Option String
  pub top_p : Option String
  pub max_output_tokens : Option ℤ
  pub stop_sequences : List String

pub record Declaration : Type 0 where
  pub name : String
  pub description : String
  pub parameters : Json

unfoldable pub declaration : ChatTool → Declaration
declaration t = record {
  name = t.name;
  description = t.description;
  parameters = elim t.parameters [
    | none ↦ obj (("type", text "object") ∷ ("properties", obj []) ∷ [])
    | some schema ↦ schema
  ];
}

pub record GeminiRequest : Type 0 where
  pub contents : List (Turn Part)
  pub generation_config : GenerationConfig
  pub system_instruction : Option String
  pub tools : List Declaration

-- `strings.Join(systemTexts, "\n\n")`.
unfoldable pub joined : List String → String
joined [] = ""
joined (s ∷ []) = s
joined (s ∷ t ∷ rest) = text_append s (text_append "\n\n" (joined (t ∷ rest)))

abbrev pub system_of : List String → Option String
system_of [] = none
system_of (s ∷ rest) = some (joined (s ∷ rest))

unfoldable pub openai_to_gemini_request : (String → Option Json) → ChatRequest → GeminiRequest
unfolding add_messages joined max_tokens stop_sequences declaration
openai_to_gemini_request parse req =
    let s = add_messages parse unsorted req.messages in
    record {
      contents = s.contents;
      generation_config = record {
        temperature = req.temperature;
        top_p = req.top_p;
        max_output_tokens = if is_pos (max_tokens req) then some (max_tokens req) else none;
        stop_sequences = stop_sequences req.stop;
      };
      system_instruction = system_of s.system_texts;
      tools = map declaration req.tools;
    }
