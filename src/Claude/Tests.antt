-- ===== src/Claude/Tests.antt =====
-- The statements about the Claude provider at concrete inputs.
use apiforge.Base.{
  ◌≡◌, refl, String, true, Option, none, some, List, [], ◌∷◌, map, concat_map, if◌then◌else◌,
  str_eq, pos,
}
use apiforge.Json.{Json, Items, array, text, Fields, fields, get_in}
use apiforge.Chat.{plain, null_content, ChatMessage}
use apiforge.Chat.Client.{nothing, receive_all, filled}
use apiforge.Chat.Turns.{said}
use apiforge.Claude.{ChatRequest, no_stop, openai_to_anthropic}
use apiforge.Claude.Merging.{IsConversation, blocks_of, openai_to_anthropic-said}
use apiforge.Claude.Identity.{oauth_patch, IsIdentified, sent_entry, oauth_patch-entries}
use apiforge.Claude.Response.{anthropic_to_openai}
use apiforge.Claude.Stream.{stream_messages_to_openai}
use apiforge.Claude.Streaming.{
  UpBlock, text_pieces, tool_pieces, message_events, whole_message, stream_messages_to_openai-whole,
}

abbrev no_json : String → Option Json
no_json s = none

abbrev said_by : String → String → ChatMessage
said_by role s = record { role = role; content = plain s; tool_call_id = ""; tool_calls = [] }

abbrev asking : ChatRequest
asking = record {
  model = "claude-sonnet-5";
  messages =
      said_by "user" "List"
      ∷ said_by "user" "all"
      ∷ record {
        role = "assistant";
        content = null_content;
        tool_call_id = "";
        tool_calls = record { id = "c1"; name = "ls"; arguments = "[]" } ∷ [];
      }
      ∷ record { role = "tool"; content = plain "a b"; tool_call_id = "c1"; tool_calls = [] }
      ∷ [];
  tools = [];
  stream = true;
  temperature = none;
  top_p = none;
  max_tokens = some (pos 0);
  max_completion_tokens = none;
  stop = no_stop;
}

openai_to_anthropic-said_example :
    let messages = (openai_to_anthropic no_json asking).messages in
    IsConversation messages × (said messages ≡ concat_map (blocks_of no_json) asking.messages)
openai_to_anthropic-said_example = openai_to_anthropic-said no_json asking

abbrev native : Fields
native = fields (("user", text "me") ∷ ("system", text "Be brief.") ∷ [])

oauth_patch-entries_example :
    ((xs : Items) × (get_in (oauth_patch native "oauth") "system" ≡ array xs)
      × IsIdentified (get_in native "system") xs)
    × (get_in (oauth_patch native "oauth") "user" ≡ sent_entry native "user")
    × (oauth_patch native "key" ≡ native)
oauth_patch-entries_example = oauth_patch-entries native "user" refl

abbrev two_blocks : List UpBlock
two_blocks = text_pieces ("Lo" ∷ "ok" ∷ []) ∷ tool_pieces "c1" "ls" ("[1" ∷ "]" ∷ []) ∷ []

stream_messages_to_openai-whole_example :
    let r =
      receive_all nothing (stream_messages_to_openai (message_events two_blocks "tool_use")) in
    let m = anthropic_to_openai (whole_message two_blocks "tool_use" (pos 1) (pos 2)) in
    (m.content ≡ (if str_eq r.text "" then none else some r.text))
    × (m.tool_calls ≡ map filled r.calls)
    × (r.finish ≡ some m.finish_reason)
stream_messages_to_openai-whole_example =
    stream_messages_to_openai-whole two_blocks "tool_use" (pos 1) (pos 2) refl
