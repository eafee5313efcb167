-- ===== src/Grok.antt =====
-- internal/provider/grokweb/protocol.go: the models, the folding of a chat into one text, the parts of
-- the payload that depend on the request, and both answers. `decode` gives the token of a line, `none`
-- where the line is no such object. The random header and the fixed ones are left out.
pub mod Answer
use Prim.Native.Char.{code}
use apiforge.Base.{
  ℕ, ◌==◌, String, Bool, true, false, ◌&&◌, ◌||◌, Option, none, some, List, [], ◌∷◌, ◌++◌, map,
  if◌then◌else◌, str_eq, lookup,
}
use apiforge.Base.Text.{Bytes, trim_space, text_append, has_prefix}
use apiforge.Chat.{
  ContentPart, Content, absent, null_content, malformed, plain, parts, role_delta, empty_delta,
  content_delta, Frame, chunk, done,
}
use apiforge.Sse

pub record ModelSpec : Type 0 where
  pub grok_model : String
  pub model_mode : String

abbrev spec : String → String → ModelSpec
spec grok_model model_mode = record { grok_model = grok_model; model_mode = model_mode }

abbrev pub model_registry : List (String × ModelSpec)
model_registry =
    ("grok-3", spec "grok-3" "MODEL_MODE_GROK_3")
    ∷ ("grok-3-mini", spec "grok-3" "MODEL_MODE_GROK_3_MINI_THINKING")
    ∷ ("grok-4.1-thinking", spec "grok-4-1-thinking-1129" "MODEL_MODE_GROK_4_1_THINKING")
    ∷ ("grok-4.2-fast", spec "grok-420" "MODEL_MODE_FAST")
    ∷ ("grok-4.2", spec "grok-420" "MODEL_MODE_GROK_420")
    ∷ ("grok-expert", spec "grok-420" "MODEL_MODE_EXPERT")
    ∷ []

abbrev pub model_ids : List String
model_ids =
    "grok-4.2" ∷ "grok-4.2-fast" ∷ "grok-expert" ∷ "grok-4.1-thinking" ∷ "grok-3" ∷ "grok-3-mini"
    ∷ []

unfoldable pub resolve_model : String → ModelSpec
resolve_model id = elim (lookup id model_registry) [ none ↦ spec id "MODEL_MODE_AUTO" | some s ↦ s ]

unfoldable pub text_of_parts : List ContentPart → String
text_of_parts [] = ""
text_of_parts (p ∷ rest) =
    text_append (if str_eq p.type "text" then p.text else "") (text_of_parts rest)

unfoldable pub extract_text : Content → String
unfolding text_of_parts
extract_text absent = ""
extract_text null_content = ""
extract_text malformed = ""
extract_text (plain s) = s
extract_text (parts ps) = text_of_parts ps

pub record Message : Type 0 where
  pub role : String
  pub content : Content

abbrev pub label : String → String
label role =
    if str_eq role "system"
    then "[System]"
    else if str_eq role "assistant"
    then "[Assistant]"
    else "[User]"

unfoldable pub labelled : Message → String
unfolding extract_text
labelled m = text_append (label m.role) (text_append "\n" (extract_text m.content))

-- `strings.Join(parts, "\n\n")`.
unfoldable pub joined : List String → String
joined [] = ""
joined (s ∷ []) = s
joined (s ∷ t ∷ rest) = text_append s (text_append "\n\n" (joined (t ∷ rest)))

unfoldable pub fold_messages : List Message → String
unfolding labelled joined extract_text
fold_messages [] = ""
fold_messages (m ∷ []) = extract_text m.content
fold_messages (m ∷ m' ∷ rest) = joined (map labelled (m ∷ m' ∷ rest))

-- `strings.Contains(s, part)`.
unfoldable pub contains : String → String → Bool
contains String.[] part = has_prefix "" part
contains (String.◌∷◌ c s) part = has_prefix (String.◌∷◌ c s) part || contains s part

-- The keys of `buildPayload` that are not constant.
pub record Payload : Type 0 where
  pub model_name : String
  pub message : String
  pub is_think_harder : Bool
  pub model_mode : String

unfoldable pub build_payload : String → ModelSpec → Payload
unfolding contains
build_payload msg_text s = record {
  model_name = s.grok_model;
  message = msg_text;
  is_think_harder = contains s.model_mode "THINKING" || contains s.model_mode "EXPERT";
  model_mode = s.model_mode;
}

unfoldable pub cookie_header : String → String
unfolding contains
cookie_header token = if contains token "=" then token else text_append "sso=" token

-- The tokens that `forEachToken` hands on, in order.
unfoldable pub tokens_of : (Bytes → Option String) → List Bytes → List String
tokens_of decode [] = []
tokens_of decode (line ∷ rest) = elim (trim_space line) [
  | [] ↦ tokens_of decode rest
  | c ∷ s ↦ elim (decode (c ∷ s)) [
    | none ↦ tokens_of decode rest
    | some token ↦
        let more = tokens_of decode rest in if str_eq token "" then more else token ∷ more
  ]
]

unfoldable pub for_each_token : (Bytes → Option String) → Bytes → List String
unfolding tokens_of
for_each_token decode upstream = tokens_of decode (Sse.lines upstream)

unfoldable pub stream_to_openai : (Bytes → Option String) → Bytes → List Frame
unfolding for_each_token
stream_to_openai decode upstream =
    chunk role_delta none ∷ map (λ s. chunk (content_delta s) none) (for_each_token decode upstream)
    ++ chunk empty_delta (some "stop") ∷ done ∷ []

unfoldable pub all_text : List String → String
all_text [] = ""
all_text (s ∷ rest) = text_append s (all_text rest)

-- The content of the completion, none if it is empty.
unfoldable pub aggregate : (Bytes → Option String) → Bytes → Option String
unfolding for_each_token all_text
aggregate decode upstream =
    let t = all_text (for_each_token decode upstream) in if str_eq t "" then none else some t
