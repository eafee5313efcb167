-- ===== src/Gemini/Stream.antt =====
-- internal/provider/gemini/translate.go: `geminiToOpenAI` and `StreamToOpenAI`, on the first candidate
-- of each decoded answer. `new_ids` gives the id of the n-th call.
use apiforge.Base.{
  ℕ, suc, String, Option, none, some, List, [], ◌∷◌, ◌++◌, if◌then◌else◌, str_eq, lookup, ℤ,
}
use apiforge.Base.Text.{text_append}
use apiforge.Chat.{
  ToolCall, role_delta, empty_delta, content_delta, open_delta, Frame, chunk, done, Completion,
}

-- A part: its text, and its function call by name and arguments.
pub record GeminiPart : Type 0 where
  pub text : String
  pub function_call : Option (String × String)

pub record Candidate : Type 0 where
  pub parts : List GeminiPart
  pub finish_reason : String

pub record UsageMetadata : Type 0 where
  pub prompt_token_count : ℤ
  pub candidates_token_count : ℤ
  pub total_token_count : ℤ

pub record GeminiResponse : Type 0 where
  pub candidates : List Candidate
  pub usage_metadata : UsageMetadata

abbrev pub finish_map : List (String × String)
finish_map =
    ("STOP", "stop")
    ∷ ("MAX_TOKENS", "length")
    ∷ ("SAFETY", "content_filter")
    ∷ ("RECITATION", "content_filter")
    ∷ []

abbrev pub args_of : String → String
args_of args = if str_eq args "" then "{}" else args

-- The loop over the parts: the text, and the calls from the n-th on.
unfoldable pub text_of_parts : List GeminiPart → String
text_of_parts [] = ""
text_of_parts (p ∷ rest) = text_append p.text (text_of_parts rest)

abbrev pub call_of : GeminiPart → Option (String × String)
call_of p = if str_eq p.text "" then p.function_call else none

unfoldable pub calls_of_parts : (ℕ → String) → ℕ → List GeminiPart → List ToolCall
calls_of_parts new_ids n [] = []
calls_of_parts new_ids n (p ∷ rest) = elim (call_of p) [
  | none ↦ calls_of_parts new_ids n rest
  | some (name, args) ↦
      record { id = new_ids n; name = name; arguments = args_of args }
      ∷ calls_of_parts new_ids (suc n) rest
]

unfoldable pub mapped_or : String → String → String
mapped_or reason d = elim (lookup reason finish_map) [ none ↦ d | some f ↦ f ]

unfoldable pub finish_for : List ToolCall → String → String
unfolding mapped_or
finish_for [] reason = mapped_or (if str_eq reason "" then "STOP" else reason) "stop"
finish_for (call ∷ rest) reason = "tool_calls"

abbrev pub completion_for : (ℕ → String) → List GeminiPart → String → UsageMetadata → Completion
completion_for new_ids ps reason usage =
    let calls = calls_of_parts new_ids 0 ps in
    record {
      content = if str_eq (text_of_parts ps) "" then none else some (text_of_parts ps);
      tool_calls = calls;
      finish_reason = finish_for calls reason;
      prompt_tokens = usage.prompt_token_count;
      completion_tokens = usage.candidates_token_count;
      total_tokens = usage.total_token_count;
    }

unfoldable pub gemini_to_openai : (ℕ → String) → GeminiResponse → Completion
unfolding text_of_parts calls_of_parts finish_for
gemini_to_openai new_ids resp = elim resp.candidates [
  | [] ↦ completion_for new_ids [] "" resp.usage_metadata
  | cand ∷ rest ↦ completion_for new_ids cand.parts cand.finish_reason resp.usage_metadata
]

-- The variables of the stream.
pub record Streamed : Type 0 where
  pub tool_index : ℕ
  pub finish : String

abbrev pub not_started : Streamed
not_started = record { tool_index = 0; finish = "stop" }

unfoldable pub stream_parts : (ℕ → String) → Streamed → List GeminiPart → Streamed × List Frame
stream_parts new_ids s [] = (s, [])
stream_parts new_ids s (p ∷ rest) =
    if str_eq p.text ""
    then (elim p.function_call [
      | none ↦ stream_parts new_ids s rest
      | some (name, args) ↦
          let (s', frames) =
            stream_parts new_ids (record { tool_index = suc s.tool_index; finish = "tool_calls" })
              rest in
          (
            s',
            chunk (open_delta s.tool_index (new_ids s.tool_index) name (args_of args)) none
                ∷ frames,
          )
    ])
    else (let (s', frames) = stream_parts new_ids s rest in
        (s', chunk (content_delta p.text) none ∷ frames))

-- What one answer gives; an unknown reason changes nothing.
unfoldable pub stream_candidate : (ℕ → String) → Streamed → Candidate → Streamed × List Frame
unfolding stream_parts mapped_or
stream_candidate new_ids s cand =
    let (s', frames) = stream_parts new_ids s cand.parts in
    (
      if str_eq cand.finish_reason ""
          then s'
          else record s' { finish = mapped_or cand.finish_reason s'.finish },
      frames,
    )

unfoldable pub stream_from : (ℕ → String) → Streamed → List GeminiResponse → List Frame
unfolding stream_candidate
stream_from new_ids s [] = chunk empty_delta (some s.finish) ∷ done ∷ []
stream_from new_ids s (resp ∷ rest) = elim resp.candidates [
  | [] ↦ stream_from new_ids s rest
  | cand ∷ others ↦
      let step = stream_candidate new_ids s cand in step.1 ++ stream_from new_ids step.0 rest
]

unfoldable pub stream_to_openai : (ℕ → String) → List GeminiResponse → List Frame
unfolding stream_from
stream_to_openai new_ids resps = chunk role_delta none ∷ stream_from new_ids not_started resps
