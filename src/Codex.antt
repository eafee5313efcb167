-- ===== src/Codex.antt =====
-- internal/provider/codex/translate.go: `extractText`, `userContent` and `openaiToCodex`, the
-- request's way to the Codex backend. The literal maps of the body are a data type each.
pub mod Collector
pub mod Stream
pub mod Keys
pub mod Mirror
pub mod Translation
pub mod Images
pub mod Backend
mod Tests
use apiforge.Base.{
  String, Bool, true, false, ◌||◌, Option, none, some, List, [], ◌∷◌, ◌++◌, if◌then◌else◌, str_eq,
}
use apiforge.Base.Text.{text_append}
use apiforge.Json.{Json, text, obj}
use apiforge.Chat.{
  ContentPart, Content, absent, null_content, malformed, plain, parts, ToolCall, ChatMessage,
  ChatTool,
}

pub record ChatRequest : Type 0 where
  pub model : String
  pub messages : List ChatMessage
  pub tools : List ChatTool
  pub tool_choice : Option Json
  pub reasoning_effort : String
  pub stream : Bool

abbrev is_text : String → Bool
is_text type = str_eq type "text" || str_eq type "output_text" || str_eq type "input_text"

unfoldable pub text_of_parts : List ContentPart → String
text_of_parts [] = ""
text_of_parts (p ∷ rest) = text_append (if is_text p.type then p.text else "") (text_of_parts rest)

unfoldable pub extract_text : Content → String
unfolding text_of_parts
extract_text absent = ""
extract_text null_content = ""
extract_text malformed = ""
extract_text (plain s) = s
extract_text (parts ps) = text_of_parts ps

pub data InputPart : Type 0 where
  input_text : String → InputPart
  input_image : String → InputPart

unfoldable pub input_parts : List ContentPart → List InputPart
input_parts [] = []
input_parts (p ∷ rest) =
    (if str_eq p.type "image_url" then input_image p.image_url else input_text p.text)
    ∷ input_parts rest

unfoldable pub user_content : Content → List InputPart
unfolding input_parts
user_content absent = input_text "" ∷ []
user_content null_content = input_text "" ∷ []
user_content malformed = input_text "" ∷ []
user_content (plain s) = input_text s ∷ []
user_content (parts ps) = input_parts ps

pub data InputItem : Type 0 where
  function_call_output : String → String → InputItem
  assistant_message : String → InputItem
  function_call : String → String → String → InputItem
  user_message : List InputPart → InputItem

unfoldable pub function_calls : List ToolCall → List InputItem
function_calls [] = []
function_calls (call ∷ rest) = function_call call.name call.arguments call.id ∷ function_calls rest

-- The variables `instructions` and `input` of the loop.
pub record Sorted : Type 0 where
  pub instructions : List String
  pub input : List InputItem

abbrev unsorted : Sorted
unsorted = record { instructions = []; input = [] }

unfoldable pub said : String → List InputItem
said t = if str_eq t "" then [] else assistant_message t ∷ []

-- The switch on one message's role.
unfoldable pub add_message : Sorted → ChatMessage → Sorted
unfolding said function_calls user_content extract_text
add_message s msg =
    if str_eq msg.role "system" || str_eq msg.role "developer"
    then (if str_eq (extract_text msg.content) ""
        then s
        else record s { instructions = s.instructions ++ extract_text msg.content ∷ [] })
    else if str_eq msg.role "tool"
    then record s {
      input = s.input ++ function_call_output msg.tool_call_id (extract_text msg.content) ∷ [];
    }
    else if str_eq msg.role "assistant"
    then record s {
      input = s.input ++ (said (extract_text msg.content) ++ function_calls msg.tool_calls);
    }
    else record s { input = s.input ++ user_message (user_content msg.content) ∷ [] }

unfoldable pub add_messages : Sorted → List ChatMessage → Sorted
unfolding add_message
add_messages s [] = s
add_messages s (msg ∷ rest) = add_messages (add_message s msg) rest

-- `strings.Join(instructions, "\n\n")`.
unfoldable pub joined : List String → String
joined [] = ""
joined (s ∷ []) = s
joined (s ∷ t ∷ rest) = text_append s (text_append "\n\n" (joined (t ∷ rest)))

pub record CodexTool : Type 0 where
  pub name : String
  pub description : String
  pub parameters : Json

abbrev pub empty_schema : Json
empty_schema = obj (("type", text "object") ∷ ("properties", obj []) ∷ [])

unfoldable pub codex_tools : List ChatTool → List CodexTool
codex_tools [] = []
codex_tools (t ∷ rest) =
    record {
      name = t.name;
      description = t.description;
      parameters = elim t.parameters [ none ↦ empty_schema | some schema ↦ schema ];
    }
    ∷ codex_tools rest

-- The keys that are set together when there are tools; `parallel_tool_calls` is then false.
pub record ToolSettings : Type 0 where
  pub tools : List CodexTool
  pub tool_choice : Json

unfoldable pub tool_settings : List ChatTool → Option Json → Option ToolSettings
unfolding codex_tools
tool_settings [] choice = none
tool_settings (t ∷ rest) choice = some (record {
  tools = codex_tools (t ∷ rest);
  tool_choice = elim choice [ none ↦ text "auto" | some c ↦ c ];
})

-- The body; `store` is false and `stream` true. With an effort, `include` asks for the encrypted
-- reasoning.
pub record CodexBody : Type 0 where
  pub model : String
  pub instructions : String
  pub input : List InputItem
  pub store : Bool
  pub stream : Bool
  pub prompt_cache_key : String
  pub tool_settings : Option ToolSettings
  pub reasoning : Option String
  pub include : List String

unfoldable pub openai_to_codex : ChatRequest → String → CodexBody
unfolding add_messages joined tool_settings
openai_to_codex req session_id =
    let s = add_messages unsorted req.messages in
    record {
      model = req.model;
      instructions = joined s.instructions;
      input = s.input;
      store = false;
      stream = true;
      prompt_cache_key = session_id;
      tool_settings = tool_settings req.tools req.tool_choice;
      reasoning = if str_eq req.reasoning_effort "" then none else some req.reasoning_effort;
      include = if str_eq req.reasoning_effort "" then [] else "reasoning.encrypted_content" ∷ [];
    }
