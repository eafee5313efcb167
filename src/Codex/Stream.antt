-- ===== src/Codex/Stream.antt =====
-- internal/provider/codex/translate.go: `StreamChatCompletion` and `AggregateChatCompletion`, on the
-- decoded events of the upstream. `new_ids` gives the id that the n-th event would be given.
use apiforge.Base.{
  ℕ, suc, String, Bool, true, false, not, ◌&&◌, ◌||◌, Option, none, some, List, [], ◌∷◌, ◌++◌,
  if◌then◌else◌, str_eq, lookup, insert, length, add_int,
}
use apiforge.Json.{Json}
use apiforge.Chat.{
  ToolCall, role_delta, empty_delta, content_delta, open_delta, args_delta, Frame, chunk, done,
  Completion,
}
use apiforge.Codex.Collector.{
  ToolAcc, Collector, new_collector, Delta, Kind, completed_event, incomplete_event, failed_event,
  kind, apply,
}

abbrev pub text_frames : String → List Frame
text_frames s = if str_eq s "" then [] else chunk (content_delta s) none ∷ []

-- `toolIndex[key]`, 0 if it is missing.
unfoldable pub index_of : Option ℕ → ℕ
index_of none = 0
index_of (some i) = i

abbrev pub args_frames : List (String × ℕ) → String → String → List Frame
args_frames index key s =
    if str_eq s "" then [] else chunk (args_delta (index_of (lookup key index)) s) none ∷ []

-- The three `if`s after `apply`: the new index of the tools, and the chunks.
unfoldable pub emit : List (String × ℕ) → Delta → List (String × ℕ) × List Frame
unfolding index_of
emit index d = elim d.tool_open [
  | none ↦ (index, text_frames d.text_delta ++ args_frames index d.tool_args_key d.tool_args_data)
  | some acc ↦
      let index' = insert acc.id (length index) index in
      (
        index',
        text_frames d.text_delta
            ++ chunk (open_delta (length index) acc.id acc.name "") none
              ∷ args_frames index' d.tool_args_key d.tool_args_data,
      )
]

-- What follows the chunks of one event; `more` is the rest of the loop.
abbrev pub and_then : Kind → Collector → List Frame → List Frame
and_then completed_event c more = chunk empty_delta (some c.finish) ∷ done ∷ []
and_then incomplete_event c more = chunk empty_delta (some c.finish) ∷ done ∷ []
and_then failed_event c more = done ∷ []
and_then _ c more = more

unfoldable pub stream_from :
    (ℕ → String) → ℕ → Collector → List (String × ℕ) → List Json → List Frame
unfolding emit
stream_from new_ids n c index [] = chunk empty_delta (some c.finish) ∷ done ∷ []
stream_from new_ids n c index (evt ∷ rest) =
    let step = apply c (new_ids n) evt in
    let out = emit index step.1 in
    let more = stream_from new_ids (suc n) step.0 out.0 rest in
    out.1 ++ and_then (kind evt) step.0 more

unfoldable pub stream_chat_completion : (ℕ → String) → List Json → List Frame
unfolding stream_from
stream_chat_completion new_ids evts =
    chunk role_delta none ∷ stream_from new_ids 0 new_collector [] evts

-- The loop of `AggregateChatCompletion`.
unfoldable pub collect_from : (ℕ → String) → ℕ → Collector → List Json → Collector
collect_from new_ids n c [] = c
collect_from new_ids n c (evt ∷ rest) =
    collect_from new_ids (suc n) (apply c (new_ids n) evt).0 rest

abbrev pub collected : (ℕ → String) → List Json → Collector
collected new_ids evts = collect_from new_ids 0 new_collector evts

-- One tool call of the message; a missing entry would be a nil pointer.
abbrev pub call_of : Option ToolAcc → List ToolCall
call_of none = []
call_of (some t) =
    record { id = t.id; name = t.name; arguments = if str_eq t.args "" then "{}" else t.args } ∷ []

unfoldable pub tool_calls_of : List (String × ToolAcc) → List String → List ToolCall
tool_calls_of tools [] = []
tool_calls_of tools (key ∷ rest) = call_of (lookup key tools) ++ tool_calls_of tools rest

abbrev pub is_unusable : Collector → Bool
is_unusable c =
    c.failed
    || not c.completed && str_eq c.text "" && (elim c.order [ [] ↦ true | k ∷ rest ↦ false ])

unfoldable pub completion_of : Collector → Option Completion
unfolding tool_calls_of
completion_of c =
    if is_unusable c
    then none
    else some (record {
      content = if str_eq c.text "" then none else some c.text;
      tool_calls = tool_calls_of c.tools c.order;
      finish_reason = c.finish;
      prompt_tokens = c.in_tok;
      completion_tokens = c.out_tok;
      total_tokens = add_int c.in_tok c.out_tok;
    })

unfoldable pub aggregate_chat_completion : (ℕ → String) → List Json → Option Completion
unfolding collect_from completion_of
aggregate_chat_completion new_ids evts = completion_of (collected new_ids evts)
