-- ===== src/Gemini/Streaming.antt =====
-- The stream of an answer that is cut into chunks, and the completion of the whole answer.
use apiforge.Base.{
  ℕ, suc, ◌≡◌, refl, ◌∙◌, ap, sym, inl, inr, String, none, some, List, [], ◌∷◌, ◌++◌, append-nil,
  append_assoc, if◌then◌else◌, str_eq, eq_iff, lookup, length, length-append, arith, Bool-cases,
  Option-cases, pos,
}
use apiforge.Base.Text.{text_append, text_append_empty, text_append_assoc}
use apiforge.Chat.{ToolCall, empty_delta, content_delta, open_delta, Frame, chunk, done}
use apiforge.Chat.Client.{Received, nothing, receive_all, open_at, open_at-next, receive_all-append}
use apiforge.Gemini.Stream.{
  GeminiPart, UsageMetadata, GeminiResponse, args_of, text_of_parts, calls_of_parts, mapped_or,
  finish_for, gemini_to_openai, Streamed, not_started, stream_parts, stream_candidate, stream_from,
  stream_to_openai,
}

abbrev no_usage : UsageMetadata
no_usage = record {
  prompt_token_count = pos 0;
  candidates_token_count = pos 0;
  total_token_count = pos 0;
}

-- The chunks before the last one give no reason.
abbrev answer_of : List GeminiPart → String → GeminiResponse
answer_of ps reason = record {
  candidates = record { parts = ps; finish_reason = reason } ∷ [];
  usage_metadata = no_usage;
}

abbrev pub answers : List (List GeminiPart) → List GeminiPart → String → List GeminiResponse
answers [] last reason = answer_of last reason ∷ []
answers (ps ∷ chunks) last reason = answer_of ps "" ∷ answers chunks last reason

abbrev pub all_parts : List (List GeminiPart) → List GeminiPart → List GeminiPart
all_parts [] last = last
all_parts (ps ∷ chunks) last = ps ++ all_parts chunks last

abbrev pub whole_answer :
    List (List GeminiPart) → List GeminiPart → String → UsageMetadata → GeminiResponse
whole_answer chunks last reason usage = record {
  candidates = record { parts = all_parts chunks last; finish_reason = reason } ∷ [];
  usage_metadata = usage;
}

abbrev after : Streamed × List Frame → (Streamed → Streamed × List Frame) → Streamed × List Frame
after (s, fs) more = ((more s).0, fs ++ (more s).1)

-- Parts that come in two chunks give what they give in one.
stream_parts-append :
    (new_ids : ℕ → String) (s : Streamed) (ps qs : List GeminiPart)
    → stream_parts new_ids s (ps ++ qs)
      ≡ after (stream_parts new_ids s ps) (λ t. stream_parts new_ids t qs)
unfolding stream_parts
stream_parts-append new_ids s [] qs = refl
stream_parts-append new_ids s (p ∷ ps) qs = elim (Bool-cases (str_eq p.text "")) [
  | inr said ↦
      rw (said, stream_parts)
        (ap (λ out. (out.0, chunk (content_delta p.text) none ∷ out.1))
          (stream_parts-append new_ids s ps qs))
  | inl blank ↦ elim (Option-cases p.function_call) [
    | inl no_call ↦ rw (blank, no_call, stream_parts) (stream_parts-append new_ids s ps qs)
    | inr (call, is) ↦
        rw (blank, is, stream_parts)
          (ap
            (λ out. (
              out.0,
              chunk (open_delta s.tool_index (new_ids s.tool_index) call.0 (args_of call.1)) none
                  ∷ out.1,
            ))
            (stream_parts-append new_ids
              (record { tool_index = suc s.tool_index; finish = "tool_calls" }) ps qs))
  ]
]

abbrev last_finish : Streamed → String → String
last_finish s reason = if str_eq reason "" then s.finish else mapped_or reason s.finish

abbrev ending : Streamed × List Frame → String → List Frame
ending (s, fs) reason = fs ++ chunk empty_delta (some (last_finish s reason)) ∷ done ∷ []

stream_from-all_parts :
    (new_ids : ℕ → String) (s : Streamed) (chunks : List (List GeminiPart)) (last : List GeminiPart)
    (reason : String)
    → stream_from new_ids s (answers chunks last reason)
      ≡ ending (stream_parts new_ids s (all_parts chunks last)) reason
unfolding stream_from stream_candidate
stream_from-all_parts new_ids s [] last reason = elim (Bool-cases (str_eq reason "")) [
  | inl no_reason ↦ rw (no_reason, stream_from) refl
  | inr known ↦ rw (known, stream_from) refl
]
stream_from-all_parts new_ids s (ps ∷ chunks) last reason =
    let out = stream_parts new_ids s ps in
    ap (◌++◌ out.1) (stream_from-all_parts new_ids out.0 chunks last reason)
    ∙ sym (
        append_assoc out.1 (stream_parts new_ids out.0 (all_parts chunks last)).1 (
          chunk empty_delta
            (some (last_finish (stream_parts new_ids out.0 (all_parts chunks last)).0 reason))
          ∷ done
          ∷ []))
    ∙ ap (λ o. ending o reason) (sym (stream_parts-append new_ids s ps (all_parts chunks last)))

abbrev got : String → List ToolCall → Received
got t calls = record { text = t; calls = calls; finish = none }

abbrev finish_after : List ToolCall → String → String
finish_after [] finish = finish
finish_after (call ∷ rest) finish = "tool_calls"

finish_after_calls : (calls : List ToolCall) → finish_after calls "tool_calls" ≡ "tool_calls"
finish_after_calls [] = refl
finish_after_calls (call ∷ rest) = refl

-- What the client gets from some parts, and how the reason stands after them.
stream_parts-told :
    (new_ids : ℕ → String) (t : String) (cs : List ToolCall) (s : Streamed) (ps : List GeminiPart)
    → s.tool_index ≡ length cs
    → (receive_all (got t cs) (stream_parts new_ids s ps).1
        ≡ got (text_append t (text_of_parts ps)) (cs ++ calls_of_parts new_ids s.tool_index ps))
      × ((stream_parts new_ids s ps).0.finish
          ≡ finish_after (calls_of_parts new_ids s.tool_index ps) s.finish)
unfolding stream_parts receive_all text_of_parts calls_of_parts
stream_parts-told new_ids t cs s [] h = (
  ap (λ x. got x cs) (sym (text_append_empty t))
      ∙ ap (got (text_append t "")) (sym (append-nil cs)),
  refl,
)
stream_parts-told new_ids t cs s (p ∷ ps) h = elim (Bool-cases (str_eq p.text "")) [
  | inr said ↦
      let (read, finish) = stream_parts-told new_ids (text_append t p.text) cs s ps h in
      rw (said, stream_parts, calls_of_parts)
        (
          read
              ∙ ap (λ x. got x (cs ++ calls_of_parts new_ids s.tool_index ps))
                  (text_append_assoc t p.text (text_of_parts ps)),
          finish,
        )
  | inl blank ↦
      let silent : text_append p.text (text_of_parts ps) ≡ text_of_parts ps =
        ap (λ x. text_append x (text_of_parts ps)) ((eq_iff p.text "").0 blank) in
      elim (Option-cases p.function_call) [
        | inl no_call ↦
            let (read, finish) = stream_parts-told new_ids t cs s ps h in
            rw (blank, no_call, silent, stream_parts, calls_of_parts) (read, finish)
        | inr (call, is) ↦
            let next : Streamed = record { tool_index = suc s.tool_index; finish = "tool_calls" } in
            let made : ToolCall = record {
              id = new_ids s.tool_index;
              name = call.0;
              arguments = args_of call.1;
            } in
            let counted : suc s.tool_index ≡ length (cs ++ made ∷ []) =
              omega (arith, length-append cs (made ∷ []), h) in
            let (read, finish) = stream_parts-told new_ids t (cs ++ made ∷ []) next ps counted in
            let opened =
              ap (λ i. open_at i made.id made.name made.arguments cs) h
              ∙ open_at-next cs made.id made.name made.arguments in
            rw (blank, is, silent, stream_parts, calls_of_parts)
              (
                ap (λ k. receive_all (got t k) (stream_parts new_ids next ps).1) opened
                    ∙ read
                    ∙ ap (got (text_append t (text_of_parts ps))) (
                        append_assoc cs (made ∷ []) (calls_of_parts new_ids (suc s.tool_index) ps)),
                finish ∙ finish_after_calls (calls_of_parts new_ids (suc s.tool_index) ps),
              )
      ]
]

-- The reason that ends the stream of an answer with these calls.
abbrev pub stream_finish : List ToolCall → String → String
stream_finish [] reason = finish_for [] reason
stream_finish (call ∷ rest) reason =
    if str_eq reason "" then "tool_calls" else mapped_or reason "tool_calls"

last_finish_of :
    (calls : List ToolCall) (reason : String) (s : Streamed)
    → s.finish ≡ finish_after calls "stop"
    → last_finish s reason ≡ stream_finish calls reason
unfolding finish_for mapped_or lookup
last_finish_of [] reason s h = elim (Bool-cases (str_eq reason "")) [
  | inl no_reason ↦ rw no_reason h
  | inr known ↦ rw known (ap (mapped_or reason) h)
]
last_finish_of (call ∷ rest) reason s h =
    ap (λ f. if str_eq reason "" then f else mapped_or reason f) h

-- However an answer is cut into chunks, with the reason in the last one: its stream tells the client
-- the text and the calls (at their indices, with their ids, names and arguments) of the completion of
-- the whole answer. The
-- reason is the completion's if there is no call; after a call the completion says `tool_calls`, but
-- the stream says so only if the answer's own reason is missing or unknown.
pub stream_to_openai-whole :
    (new_ids : ℕ → String) (chunks : List (List GeminiPart)) (last : List GeminiPart)
    (reason : String) (usage : UsageMetadata)
    → let r = receive_all nothing (stream_to_openai new_ids (answers chunks last reason)) in
      let m = gemini_to_openai new_ids (whole_answer chunks last reason usage) in
      (m.content ≡ (if str_eq r.text "" then none else some r.text))
      × (m.tool_calls ≡ r.calls)
      × (r.finish ≡ some (stream_finish m.tool_calls reason))
unfolding stream_to_openai receive_all gemini_to_openai
stream_to_openai-whole new_ids chunks last reason usage =
    let ps = all_parts chunks last in
    let out = stream_parts new_ids not_started ps in
    let (read, finish) = stream_parts-told new_ids "" [] not_started ps refl in
    let tail = chunk empty_delta (some (last_finish out.0 reason)) ∷ done ∷ [] in
    let whole =
      ap (receive_all nothing) (stream_from-all_parts new_ids not_started chunks last reason)
      ∙ receive_all-append nothing out.1 tail
      ∙ ap (λ r. receive_all r tail) read in
    (
      ap (λ t. if str_eq t "" then none else some t) (sym (ap (λ r. r.text) whole)),
      sym (ap (λ r. r.calls) whole),
      ap (λ r. r.finish) whole
          ∙ ap some (last_finish_of (calls_of_parts new_ids 0 ps) reason out.0 finish),
    )
