-- ===== src/Gemini/Turns.antt =====
-- The roles, the parts and the names of tools in the contents that `openai_to_gemini_request` sends.
use apiforge.Base.{String, ◌||◌, Option, List, [], ◌∷◌, ◌++◌, map, if◌then◌else◌, str_eq}
use apiforge.Json.{Json}
use apiforge.Chat.{ToolCall, ChatMessage}
use apiforge.Gemini.Said.{name_said, text_said, parts_said, call_said, answer_said}
use apiforge.Chat.Turns.{said_by, said}
use apiforge.Gemini
use apiforge.Gemini.{
  text_of_parts, extract_text, extension, mime_of, media_type, image_part, content_part, safe_json,
  Part, text_part, inline_data, file_data, function_call, function_response, content_parts, push,
  call_parts, name_calls, name_of, or_blank,
}

-- The names of the calls that were made before, and what one message says with them known.
abbrev names_after : List (String × String) → ChatMessage → List (String × String)
names_after names m = if str_eq m.role "assistant" then name_calls names m.tool_calls else names

abbrev parts_of :
    (String → Option Json) → List (String × String) → ChatMessage → List (String × Part)
parts_of parse names m =
    if str_eq m.role "system" || str_eq m.role "developer"
    then []
    else if str_eq m.role "tool"
    then said_by "user"
        (function_response (name_of names m.tool_call_id) (extract_text m.content) ∷ [])
    else if str_eq m.role "assistant"
    then said_by "model"
        (or_blank (Gemini.said (extract_text m.content) ++ call_parts parse m.tool_calls))
    else said_by "user" (content_parts m.content)

abbrev parts_from :
    (String → Option Json) → List (String × String) → List ChatMessage → List (String × Part)
parts_from parse names [] = []
parts_from parse names (m ∷ rest) =
    parts_of parse names m ++ parts_from parse (names_after names m) rest

-- What one message says after these calls.
abbrev pub message_said :
    (String → Option Json) → List ToolCall → ChatMessage → List (String × Part)
message_said parse calls m =
    if str_eq m.role "system" || str_eq m.role "developer"
    then []
    else if str_eq m.role "tool"
    then said_by "user"
        (function_response (name_said calls m.tool_call_id) (text_said m.content) ∷ [])
    else if str_eq m.role "assistant"
    then said_by "model" (answer_said (text_said m.content) (map (call_said parse) m.tool_calls))
    else said_by "user" (parts_said m.content)

abbrev pub calls_made : ChatMessage → List ToolCall
calls_made m = if str_eq m.role "assistant" then m.tool_calls else []

abbrev pub messages_said :
    (String → Option Json) → List ToolCall → List ChatMessage → List (String × Part)
messages_said parse calls [] = []
messages_said parse calls (m ∷ rest) =
    message_said parse calls m ++ messages_said parse (calls ++ calls_made m) rest
