-- ===== src/Claude/Merging.antt =====
-- The roles and the blocks of the messages that `openai_to_anthropic` sends.
use apiforge.Base.{
  ◌≡◌, ◌⊎◌, refl, ◌∙◌, ap, sym, inl, inr, String, ◌||◌, Option, none, some, List, [], ◌∷◌, ◌++◌,
  append-nil, append_assoc, concat_map, map, if◌then◌else◌, str_eq, Bool-cases, All,
}
use apiforge.Base.Text.{has_prefix, cut, drop_text}
use apiforge.Json.{Json, obj}
use apiforge.Chat.{
  ContentPart, Content, absent, null_content, malformed, plain, parts, ToolCall, ChatMessage,
  system, developer, tool, assistant, other, Role-cases,
}
use apiforge.Chat.Turns.{onto_last, said_by, said, Alternates, onto_last-said, onto_last-Alternates}
use apiforge.Claude.{
  ChatRequest, Media, text_block, image_base64, image_url, ResultContent, result_text,
  result_blocks, Block, media, tool_use, tool_result, string_content, media_type, image_block,
  part_block, normalize_content, safe_json, Msg, push_merged, tool_result_content, tool_uses,
  Sorted, unsorted, add_message, add_messages, openai_to_anthropic,
}

push_merged-said :
    (messages : List Msg) (role : String) (content : List Block)
    → said (push_merged messages role content) ≡ said messages ++ said_by role content
unfolding push_merged
push_merged-said messages role [] = elim (Bool-cases (str_eq role "assistant")) [
  | inl skipped ↦ rw skipped (sym (append-nil (said messages)))
  | inr kept ↦ rw kept (onto_last-said messages role [])
]
push_merged-said messages role (b ∷ content) = onto_last-said messages role (b ∷ content)

push_merged-Alternates :
    (messages : List Msg) (role : String) (content : List Block)
    → Alternates messages
    → Alternates (push_merged messages role content)
unfolding push_merged
push_merged-Alternates messages role [] h = elim (Bool-cases (str_eq role "assistant")) [
  | inl skipped ↦ rw skipped h
  | inr kept ↦ rw kept (onto_last-Alternates messages role [] h)
]
push_merged-Alternates messages role (b ∷ content) h =
    onto_last-Alternates messages role (b ∷ content) h

-- The two roles of Anthropic's messages.
abbrev pub Speaks : Msg → Type 0
Speaks m = (m.role ≡ "user") ⊎ (m.role ≡ "assistant")

onto_last-Speaks :
    (messages : List Msg) (role : String) (content : List Block)
    → All Speaks messages
    → (role ≡ "user") ⊎ (role ≡ "assistant")
    → All Speaks (onto_last messages role content)
unfolding onto_last
onto_last-Speaks [] role content h who = (who, tt)
onto_last-Speaks (m ∷ []) role content h who = elim (Bool-cases (str_eq m.role role)) [
  | inl same ↦ rw same h
  | inr differs ↦ rw differs (h.0, (who, tt))
]
onto_last-Speaks (m ∷ m' ∷ rest) role content h who =
    (h.0, onto_last-Speaks (m' ∷ rest) role content h.1 who)

push_merged-Speaks :
    (messages : List Msg) (role : String) (content : List Block)
    → All Speaks messages
    → (role ≡ "user") ⊎ (role ≡ "assistant")
    → All Speaks (push_merged messages role content)
unfolding push_merged
push_merged-Speaks messages role [] h who = elim (Bool-cases (str_eq role "assistant")) [
  | inl skipped ↦ rw skipped h
  | inr kept ↦ rw kept (onto_last-Speaks messages role [] h who)
]
push_merged-Speaks messages role (b ∷ content) h who =
    onto_last-Speaks messages role (b ∷ content) h who

-- What a list of messages must be for the upstream to take it.
abbrev pub IsConversation : List Msg → Type 0
IsConversation messages = Alternates messages × All Speaks messages

push_merged-IsConversation :
    (messages : List Msg) (role : String) (content : List Block)
    → IsConversation messages
    → (role ≡ "user") ⊎ (role ≡ "assistant")
    → IsConversation (push_merged messages role content)
push_merged-IsConversation messages role content h who = (
  push_merged-Alternates messages role content h.0,
  push_merged-Speaks messages role content h.1 who,
)

-- What one OpenAI message says, by its role, given what is made of its content and its calls.
abbrev pub by_role : ChatMessage → ResultContent → List Media → List Block → List (String × Block)
by_role m result shown uses =
    if str_eq m.role "system" || str_eq m.role "developer"
    then []
    else if str_eq m.role "tool"
    then said_by "user" (tool_result m.tool_call_id result ∷ [])
    else if str_eq m.role "assistant"
    then said_by "assistant" (map media shown ++ uses)
    else said_by "user" (map media shown)

abbrev translated : (String → Option Json) → ChatMessage → List (String × Block)
translated parse m =
    by_role m (tool_result_content m.content) (normalize_content m.content)
      (tool_uses parse m.tool_calls)

-- The media type of a data URL stands before its first comma and semicolon.
abbrev pub data_type : String → String
data_type url =
    let described = drop_text 5 (cut b',' url).0 in
    if str_eq described "" then "image/png" else (cut b';' described).0

abbrev pub part_said : ContentPart → Media
part_said p =
    if str_eq p.type "text"
    then text_block p.text
    else if has_prefix p.image_url "data:"
    then image_base64 (data_type p.image_url) (cut b',' p.image_url).1
    else image_url p.image_url

-- A text that is not empty, or every part in order.
abbrev pub content_said : Content → List Media
content_said (plain s) = if str_eq s "" then [] else text_block s ∷ []
content_said (parts ps) = map part_said ps
content_said _ = []

abbrev pub result_said : Content → ResultContent
result_said null_content = result_text ""
result_said (plain s) = result_text s
result_said content = result_blocks (content_said content)

abbrev pub use_said : (String → Option Json) → ToolCall → Block
use_said parse call =
    tool_use call.id call.name (elim (parse call.arguments) [ none ↦ obj [] | some v ↦ v ])

abbrev pub blocks_of : (String → Option Json) → ChatMessage → List (String × Block)
blocks_of parse m =
    by_role m (result_said m.content) (content_said m.content) (map (use_said parse) m.tool_calls)

map-part_said : (ps : List ContentPart) → map part_block ps ≡ map part_said ps
unfolding part_block image_block media_type
map-part_said [] = refl
map-part_said (p ∷ ps) = ap (◌∷◌ (part_said p)) (map-part_said ps)

normalize_content-said : (c : Content) → normalize_content c ≡ content_said c
unfolding normalize_content part_block
normalize_content-said absent = refl
normalize_content-said null_content = refl
normalize_content-said malformed = refl
normalize_content-said (plain s) = refl
normalize_content-said (parts ps) = map-part_said ps

tool_result_content-said : (c : Content) → tool_result_content c ≡ result_said c
unfolding tool_result_content string_content
tool_result_content-said absent = ap result_blocks (normalize_content-said absent)
tool_result_content-said null_content = refl
tool_result_content-said malformed = ap result_blocks (normalize_content-said malformed)
tool_result_content-said (plain s) = refl
tool_result_content-said (parts ps) = ap result_blocks (normalize_content-said (parts ps))

tool_uses-said :
    (parse : String → Option Json) (calls : List ToolCall)
    → tool_uses parse calls ≡ map (use_said parse) calls
unfolding tool_uses safe_json
tool_uses-said parse [] = refl
tool_uses-said parse (call ∷ rest) = ap (◌∷◌ (use_said parse call)) (tool_uses-said parse rest)

translated-said :
    (parse : String → Option Json) (m : ChatMessage) → translated parse m ≡ blocks_of parse m
translated-said parse m =
    ap (λ x. by_role m x (normalize_content m.content) (tool_uses parse m.tool_calls))
      (tool_result_content-said m.content)
    ∙ ap (λ x. by_role m (result_said m.content) x (tool_uses parse m.tool_calls))
        (normalize_content-said m.content)
    ∙ ap (by_role m (result_said m.content) (content_said m.content))
        (tool_uses-said parse m.tool_calls)

add_message-said :
    (parse : String → Option Json) (s : Sorted) (m : ChatMessage)
    → IsConversation s.messages
    → IsConversation (add_message parse s m).messages
      × (said (add_message parse s m).messages ≡ said s.messages ++ translated parse m)
unfolding add_message
add_message-said parse s m h = elim (Role-cases m.role) [
  | system e ↦ rw e (h, sym (append-nil (said s.messages)))
  | developer e ↦ rw e (h, sym (append-nil (said s.messages)))
  | tool e ↦
      let content = tool_result m.tool_call_id (tool_result_content m.content) ∷ [] in
      rw e (
        push_merged-IsConversation s.messages "user" content h (inl refl),
        push_merged-said s.messages "user" content,
      )
  | assistant e ↦
      let content = map media (normalize_content m.content) ++ tool_uses parse m.tool_calls in
      rw e (
        push_merged-IsConversation s.messages "assistant" content h (inr refl),
        push_merged-said s.messages "assistant" content,
      )
  | other a b c d ↦
      let content = map media (normalize_content m.content) in
      rw (a, b, c, d, add_message)
        (
          push_merged-IsConversation s.messages "user" content h (inl refl),
          push_merged-said s.messages "user" content,
        )
]

add_messages-said :
    (parse : String → Option Json) (s : Sorted) (ms : List ChatMessage)
    → IsConversation s.messages
    → IsConversation (add_messages parse s ms).messages
      × (said (add_messages parse s ms).messages
          ≡ said s.messages ++ concat_map (blocks_of parse) ms)
unfolding add_messages
add_messages-said parse s [] h = (h, sym (append-nil (said s.messages)))
add_messages-said parse s (m ∷ rest) h =
    let (kept, one) = add_message-said parse s m h in
    let (all, more) = add_messages-said parse (add_message parse s m) rest kept in
    (
      all,
      more
          ∙ ap (λ xs. xs ++ concat_map (blocks_of parse) rest)
              (one ∙ ap (◌++◌ (said s.messages)) (translated-said parse m))
          ∙ append_assoc (said s.messages) (blocks_of parse m) (concat_map (blocks_of parse) rest),
    )

-- The messages that are sent alternate between the user and the assistant, and hold exactly what the
-- request's messages say, in their order and each under the role that says it (a tool's result under
-- the user's): a text that is not empty, every part of a list as a text or an image, every tool call
-- with its id, name and arguments, and every tool's result with the id of its call.
pub openai_to_anthropic-said :
    (parse : String → Option Json) (req : ChatRequest)
    → let messages = (openai_to_anthropic parse req).messages in
      IsConversation messages × (said messages ≡ concat_map (blocks_of parse) req.messages)
unfolding openai_to_anthropic
openai_to_anthropic-said parse req = add_messages-said parse unsorted req.messages (tt, tt)
