-- ===== src/Claude.antt =====
-- internal/provider/claude/translate.go: the way of an OpenAI chat request to Anthropic Messages and of
-- the message back. The decoder of JSON texts is the parameter `parse`, where `none` is an error; a
-- number other than a token count is kept as its JSON text.
pub mod Merging
pub mod Identity
pub mod Response
pub mod Stream
pub mod Streaming
mod Tests
use apiforge.Base.{
  String, Bool, true, false, ◌&&◌, ◌||◌, Option, none, some, List, [], ◌∷◌, ◌++◌, map,
  if◌then◌else◌, str_eq, ℤ, pos, is_pos,
}
use apiforge.Base.Text.{text_append, has_prefix, cut, drop_text}
use apiforge.Json.{Json, text, obj}
use apiforge.Chat.Turns.{Turn, onto_last}
use apiforge.Chat.{
  ContentPart, Content, absent, null_content, malformed, plain, parts, ToolCall, ChatMessage,
  ChatTool, Completion,
}

-- What `stop` decodes to; unreadable is null, and what is neither a text nor a list of texts.
pub data Stop : Type 0 where
  no_stop unreadable_stop : Stop
  one_stop : String → Stop
  stop_list : List String → Stop

pub record ChatRequest : Type 0 where
  pub model : String
  pub messages : List ChatMessage
  pub tools : List ChatTool
  pub stream : Bool
  pub temperature : Option String
  pub top_p : Option String
  pub max_tokens : Option ℤ
  pub max_completion_tokens : Option ℤ
  pub stop : Stop

pub data Media : Type 0 where
  text_block : String → Media
  image_base64 : String → String → Media
  image_url : String → Media

pub data ResultContent : Type 0 where
  result_text : String → ResultContent
  result_blocks : List Media → ResultContent

pub data Block : Type 0 where
  media : Media → Block
  tool_use : String → String → Json → Block
  tool_result : String → ResultContent → Block

-- A `null` decodes into a string without an error, and leaves it empty.
unfoldable pub string_content : Content → Option String
string_content absent = none
string_content null_content = some ""
string_content malformed = none
string_content (plain s) = some s
string_content (parts ps) = none

-- `meta[5:]` up to its first semicolon, if anything follows the `data:`.
unfoldable pub media_type : String → String
media_type meta =
    let rest = drop_text 5 meta in if str_eq rest "" then "image/png" else (cut b';' rest).0

unfoldable pub image_block : String → Media
unfolding media_type
image_block url =
    if has_prefix url "data:"
    then image_base64 (media_type (cut b',' url).0) (cut b',' url).1
    else image_url url

unfoldable pub part_block : ContentPart → Media
unfolding image_block
part_block p = if str_eq p.type "text" then text_block p.text else image_block p.image_url

unfoldable pub normalize_content : Content → List Media
unfolding part_block
normalize_content absent = []
normalize_content null_content = []
normalize_content malformed = []
normalize_content (plain s) = if str_eq s "" then [] else text_block s ∷ []
normalize_content (parts ps) = map part_block ps

abbrev pub Msg : Type 0
Msg = Turn Block

unfoldable pub push_merged : List Msg → String → List Block → List Msg
unfolding onto_last
push_merged messages role [] =
    if str_eq role "assistant" then messages else onto_last messages role []
push_merged messages role (b ∷ content) = onto_last messages role (b ∷ content)

unfoldable pub safe_json : (String → Option Json) → String → Json
safe_json parse s = elim (parse s) [ none ↦ obj [] | some v ↦ v ]

unfoldable pub tool_result_content : Content → ResultContent
unfolding string_content normalize_content
tool_result_content content = elim (string_content content) [
  | none ↦ result_blocks (normalize_content content)
  | some s ↦ result_text s
]

unfoldable pub tool_uses : (String → Option Json) → List ToolCall → List Block
unfolding safe_json
tool_uses parse [] = []
tool_uses parse (call ∷ rest) =
    tool_use call.id call.name (safe_json parse call.arguments) ∷ tool_uses parse rest

-- The variables `systemTexts` and `messages` of the loop.
pub record Sorted : Type 0 where
  pub system_texts : List String
  pub messages : List Msg

abbrev pub unsorted : Sorted
unsorted = record { system_texts = []; messages = [] }

unfoldable pub system_text : Content → List String
unfolding string_content
system_text content = elim (string_content content) [
  | none ↦ []
  | some s ↦ if str_eq s "" then [] else s ∷ []
]

-- The switch on one message's role.
unfoldable pub add_message : (String → Option Json) → Sorted → ChatMessage → Sorted
unfolding system_text push_merged tool_result_content tool_uses normalize_content
add_message parse s m =
    if str_eq m.role "system" || str_eq m.role "developer"
    then record s { system_texts = s.system_texts ++ system_text m.content }
    else if str_eq m.role "tool"
    then record s {
      messages =
          push_merged s.messages "user"
            (tool_result m.tool_call_id (tool_result_content m.content) ∷ []);
    }
    else if str_eq m.role "assistant"
    then record s {
      messages =
          push_merged s.messages "assistant"
            (map media (normalize_content m.content) ++ tool_uses parse m.tool_calls);
    }
    else record s {
      messages = push_merged s.messages "user" (map media (normalize_content m.content));
    }

unfoldable pub add_messages : (String → Option Json) → Sorted → List ChatMessage → Sorted
unfolding add_message
add_messages parse s [] = s
add_messages parse s (m ∷ rest) = add_messages parse (add_message parse s m) rest

abbrev pub default_max_tokens : ℤ
default_max_tokens = pos 4096

abbrev pub positive_or : Option ℤ → ℤ → ℤ
positive_or none d = d
positive_or (some n) d = if is_pos n then n else d

unfoldable pub max_tokens : ChatRequest → ℤ
max_tokens req =
    positive_or req.max_completion_tokens (positive_or req.max_tokens default_max_tokens)

-- The value of `stop_sequences`, if it is set; `some none` is a nil slice, which is sent as null.
unfoldable pub stop_sequences : Stop → Option (Option (List String))
stop_sequences no_stop = none
stop_sequences unreadable_stop = some none
stop_sequences (one_stop s) = some (some (s ∷ []))
stop_sequences (stop_list xs) = some (some xs)

pub record AnthropicTool : Type 0 where
  pub name : String
  pub description : String
  pub input_schema : Json

unfoldable pub anthropic_tool : ChatTool → AnthropicTool
anthropic_tool t = record {
  name = t.name;
  description = t.description;
  input_schema = elim t.parameters [
    | none ↦ obj (("type", text "object") ∷ ("properties", obj []) ∷ [])
    | some schema ↦ schema
  ];
}

-- The body; `system` is one text block if there is any, no tools are no `tools`.
pub record AnthropicBody : Type 0 where
  pub model : String
  pub max_tokens : ℤ
  pub messages : List Msg
  pub stream : Bool
  pub system : Option String
  pub temperature : Option String
  pub top_p : Option String
  pub stop_sequences : Option (Option (List String))
  pub tools : List AnthropicTool

-- `strings.Join(systemTexts, "\n\n")`.
unfoldable pub joined : List String → String
joined [] = ""
joined (s ∷ []) = s
joined (s ∷ t ∷ rest) = text_append s (text_append "\n\n" (joined (t ∷ rest)))

abbrev pub system_of : List String → Option String
system_of [] = none
system_of (s ∷ rest) = some (joined (s ∷ rest))

unfoldable pub openai_to_anthropic : (String → Option Json) → ChatRequest → AnthropicBody
unfolding add_messages joined max_tokens stop_sequences anthropic_tool
openai_to_anthropic parse req =
    let s = add_messages parse unsorted req.messages in
    record {
      model = req.model;
      max_tokens = max_tokens req;
      messages = s.messages;
      stream = req.stream;
      system = system_of s.system_texts;
      temperature = req.temperature;
      top_p = req.top_p;
      stop_sequences = stop_sequences req.stop;
      tools = map anthropic_tool req.tools;
    }
