-- ===== src/Gemini/Tests.antt =====
-- The statements about the Gemini provider at concrete inputs.
use apiforge.Base.{
  ℕ, ◌≡◌, String, true, Option, none, some, List, [], ◌∷◌, if◌then◌else◌, str_eq, pos,
}
use apiforge.Json.{Json}
use apiforge.Chat.{plain, null_content, ChatMessage}
use apiforge.Chat.Client.{nothing, receive_all}
use apiforge.Claude.{no_stop}
use apiforge.Gemini.{ChatRequest}
use apiforge.Gemini.Stream.{GeminiPart, UsageMetadata, gemini_to_openai, stream_to_openai}
use apiforge.Gemini.Streaming.{answers, whole_answer, stream_finish, stream_to_openai-whole}

abbrev no_json : String → Option Json
no_json s = none

abbrev said_by : String → String → ChatMessage
said_by role s = record { role = role; content = plain s; tool_call_id = ""; tool_calls = [] }

abbrev asking : ChatRequest
asking = record {
  model = "gemini-3-pro";
  messages =
      said_by "user" "List"
      ∷ record {
        role = "assistant";
        content = null_content;
        tool_call_id = "";
        tool_calls = record { id = "c1"; name = "ls"; arguments = "[]" } ∷ [];
      }
      ∷ record { role = "tool"; content = plain "a b"; tool_call_id = "c1"; tool_calls = [] }
      ∷ [];
  tools = [];
  stream = true;
  temperature = none;
  top_p = none;
  max_tokens = none;
  max_completion_tokens = none;
  stop = no_stop;
}

abbrev same_id : ℕ → String
same_id n = "call_new"

abbrev text_chunk : List GeminiPart
text_chunk = record { text = "Look"; function_call = none } ∷ []

abbrev call_chunk : List GeminiPart
call_chunk = record { text = ""; function_call = some ("ls", "[1]") } ∷ []

abbrev some_usage : UsageMetadata
some_usage = record {
  prompt_token_count = pos 1;
  candidates_token_count = pos 2;
  total_token_count = pos 5;
}

stream_to_openai-whole_example :
    let r =
      receive_all nothing
        (stream_to_openai same_id (answers (text_chunk ∷ []) call_chunk "STOP")) in
    let m =
      gemini_to_openai same_id (whole_answer (text_chunk ∷ []) call_chunk "STOP" some_usage) in
    (m.content ≡ (if str_eq r.text "" then none else some r.text))
    × (m.tool_calls ≡ r.calls)
    × (r.finish ≡ some (stream_finish m.tool_calls "STOP"))
stream_to_openai-whole_example =
    stream_to_openai-whole same_id (text_chunk ∷ []) call_chunk "STOP" some_usage
