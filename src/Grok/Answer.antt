-- ===== src/Grok/Answer.antt =====
-- The streamed and the aggregated answer of Grok.
use apiforge.Base.{
  ◌≡◌, ◌∙◌, ap, sym, String, Option, none, some, List, [], ◌∷◌, ◌++◌, map, if◌then◌else◌, str_eq,
}
use apiforge.Base.Text.{Bytes, text_append, text_append_empty, text_append_assoc}
use apiforge.Chat.{empty_delta, content_delta, Frame, chunk, done}
use apiforge.Chat.Client.{Received, nothing, receive_all}
use apiforge.Grok.{for_each_token, stream_to_openai, all_text, aggregate}

abbrev got : String → Received
got t = record { text = t; calls = []; finish = none }

receive_all-tokens :
    (t : String) (tokens : List String) (more : List Frame)
    → receive_all (got t) (map (λ s. chunk (content_delta s) none) tokens ++ more)
      ≡ receive_all (got (text_append t (all_text tokens))) more
unfolding receive_all all_text
receive_all-tokens t [] more = ap (λ x. receive_all (got x) more) (sym (text_append_empty t))
receive_all-tokens t (s ∷ tokens) more =
    receive_all-tokens (text_append t s) tokens more
    ∙ ap (λ x. receive_all (got x) more) (text_append_assoc t s (all_text tokens))

-- A client reads from the stream the text that the aggregated answer has as its content (none if it is
-- empty), no calls, and the reason `stop`.
pub stream_to_openai-aggregate :
    (decode : Bytes → Option String) (upstream : Bytes)
    → let r = receive_all nothing (stream_to_openai decode upstream) in
      (aggregate decode upstream ≡ (if str_eq r.text "" then none else some r.text))
      × (r.calls ≡ [])
      × (r.finish ≡ some "stop")
unfolding stream_to_openai receive_all aggregate
stream_to_openai-aggregate decode upstream =
    let read =
      receive_all-tokens "" (for_each_token decode upstream)
        (chunk empty_delta (some "stop") ∷ done ∷ []) in
    (
      ap (λ t. if str_eq t "" then none else some t) (sym (ap (λ r. r.text) read)),
      ap (λ r. r.calls) read,
      ap (λ r. r.finish) read,
    )
