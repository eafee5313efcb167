-- ===== src/Claude/Stream.antt =====
-- internal/provider/claude/translate.go: `StreamMessagesToOpenAI`, on the decoded events of the upstream.
use apiforge.Base.{
  ℕ, suc, ◌==◌, String, Bool, true, false, ◌&&◌, Option, none, some, List, [], ◌∷◌, ◌++◌,
  if◌then◌else◌, str_eq, ℤ, pos, negsuc,
}
use apiforge.Json.{Json, get, is_object, str, int_of}
use apiforge.Chat.{
  role_delta, empty_delta, content_delta, open_delta, args_delta, Frame, chunk, done,
}
use apiforge.Claude.Response.{finish_for}

abbrev pub same_int : ℤ → ℤ → Bool
same_int (pos a) (pos b) = a == b
same_int (negsuc a) (negsuc b) = a == b
same_int _ _ = false

-- `toolIndexByBlock`: the last write to an index comes first.
unfoldable pub tool_at : ℤ → List (ℤ × ℕ) → Option ℕ
tool_at index [] = none
tool_at index ((i, t) ∷ rest) = if same_int i index then some t else tool_at index rest

pub record Streamed : Type 0 where
  pub tool_index_by_block : List (ℤ × ℕ)
  pub next_tool : ℕ
  pub sent_role : Bool

abbrev pub not_started : Streamed
not_started = record { tool_index_by_block = []; next_tool = 0; sent_role = false }

-- What one event makes of the variables, the chunks it gives, and whether it ends the stream.
pub record Step : Type 0 where
  pub after : Streamed
  pub frames : List Frame
  pub stops : Bool

abbrev pub passed : Streamed → List Frame → Step
passed s fs = record { after = s; frames = fs; stops = false }

unfoldable pub on_block_start : Streamed → Json → ℤ → Step
on_block_start s block index =
    if is_object block && str_eq (str (get block "type")) "tool_use"
    then passed
        (record s {
          tool_index_by_block = (index, s.next_tool) ∷ s.tool_index_by_block;
          next_tool = suc s.next_tool;
        })
        (chunk (open_delta s.next_tool (str (get block "id")) (str (get block "name")) "") none
          ∷ [])
    else passed s []

unfoldable pub on_block_delta : Streamed → Json → ℤ → Step
unfolding tool_at
on_block_delta s d index =
    if str_eq (str (get d "type")) "text_delta"
    then passed s (chunk (content_delta (str (get d "text"))) none ∷ [])
    else if str_eq (str (get d "type")) "input_json_delta"
    then (elim (tool_at index s.tool_index_by_block) [
      | none ↦ passed s []
      | some t ↦ passed s (chunk (args_delta t (str (get d "partial_json"))) none ∷ [])
    ])
    else passed s []

unfoldable pub on_message_delta : Streamed → String → Step
on_message_delta s stop =
    if str_eq stop ""
    then passed s []
    else passed s (chunk empty_delta (some (finish_for stop)) ∷ [])

unfoldable pub on_message_start : Streamed → Step
on_message_start s =
    if s.sent_role
    then passed s []
    else passed (record s { sent_role = true }) (chunk role_delta none ∷ [])

-- The switch on the event's type.
unfoldable pub on_event_of : String → Streamed → Json → Step
unfolding on_block_start on_block_delta on_message_delta on_message_start
on_event_of type s evt =
    if str_eq type "message_start"
    then on_message_start s
    else if str_eq type "content_block_start"
    then on_block_start s (get evt "content_block") (int_of (get evt "index"))
    else if str_eq type "content_block_delta"
    then on_block_delta s (get evt "delta") (int_of (get evt "index"))
    else if str_eq type "message_delta"
    then on_message_delta s (str (get (get evt "delta") "stop_reason"))
    else if str_eq type "message_stop"
    then record { after = s; frames = []; stops = true }
    else passed s []

unfoldable pub on_event : Streamed → Json → Step
unfolding on_event_of
on_event s evt = on_event_of (str (get evt "type")) s evt

-- The loop; it ends with the terminal frame in either way.
unfoldable pub stream_messages : Streamed → List Json → List Frame
unfolding on_event
stream_messages s [] = done ∷ []
stream_messages s (evt ∷ rest) =
    let step = on_event s evt in
    let more = stream_messages step.after rest in
    step.frames ++ (if step.stops then done ∷ [] else more)

abbrev pub stream_messages_to_openai : List Json → List Frame
stream_messages_to_openai evts = stream_messages not_started evts
