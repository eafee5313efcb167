-- ===== src/Chat.antt =====
-- What the translate.go files of internal/provider/codex, claude and gemini share: the OpenAI chat
-- request as it is decoded, and the chunks of a streamed answer. A content field is told apart by how
-- its raw JSON decodes: absent, null, a string, an array of parts, or anything else.
pub mod Client
pub mod Turns
use apiforge.Base.{
  ℕ, ◌≡◌, ◌⊎◌, inl, inr, String, Bool, true, false, Option, none, some, List, [], ◌∷◌, str_eq,
  eq_iff, Bool-cases, ℤ, pos,
}
use apiforge.Json.{Json, null, text, number, obj, arr}

pub record ContentPart : Type 0 where
  pub type : String
  pub text : String
  pub image_url : String

pub data Content : Type 0 where
  absent null_content malformed : Content
  plain : String → Content
  parts : List ContentPart → Content

pub record ToolCall : Type 0 where
  pub id : String
  pub name : String
  pub arguments : String

pub record ChatMessage : Type 0 where
  pub role : String
  pub content : Content
  pub tool_call_id : String
  pub tool_calls : List ToolCall

-- A schema of `none` is an absent one.
pub record ChatTool : Type 0 where
  pub name : String
  pub description : String
  pub parameters : Option Json

-- The `delta` of a chunk.
pub data ChunkDelta : Type 0 where
  role_delta empty_delta : ChunkDelta
  content_delta : String → ChunkDelta
  open_delta : ℕ → String → String → String → ChunkDelta
  args_delta : ℕ → String → ChunkDelta

-- What a stream writes: a chunk with its finish reason, or the terminal frame.
pub data Frame : Type 0 where
  chunk : ChunkDelta → Option String → Frame
  done : Frame

abbrev pub delta_json : ChunkDelta → Json
delta_json role_delta = obj (("role", text "assistant") ∷ ("content", text "") ∷ [])
delta_json empty_delta = obj []
delta_json (content_delta s) = obj (("content", text s) ∷ [])
delta_json (open_delta index id name arguments) = obj (
    (
      "tool_calls",
      arr (
          obj (
            ("index", number (pos index))
            ∷ ("id", text id)
            ∷ ("type", text "function")
            ∷ ("function", obj (("name", text name) ∷ ("arguments", text arguments) ∷ []))
            ∷ [])
          ∷ []),
    )
    ∷ [])
delta_json (args_delta index arguments) = obj (
    (
      "tool_calls",
      arr (
          obj (
            ("index", number (pos index))
            ∷ ("function", obj (("arguments", text arguments) ∷ []))
            ∷ [])
          ∷ []),
    )
    ∷ [])

abbrev finish_json : Option String → Json
finish_json none = null
finish_json (some reason) = text reason

-- The frame that the closure `chunk` marshals.
abbrev pub chunk_json : String → ℕ → String → ChunkDelta → Option String → Json
chunk_json id created model delta finish = obj (
    ("id", text id)
    ∷ ("object", text "chat.completion.chunk")
    ∷ ("created", number (pos created))
    ∷ ("model", text model)
    ∷ (
      "choices",
      arr (
          obj (
            ("index", number (pos 0))
            ∷ ("delta", delta_json delta)
            ∷ ("finish_reason", finish_json finish)
            ∷ [])
          ∷ []),
    )
    ∷ [])

-- The fields of a completion that depend on the answer; empty text is a null content, no calls no
-- `tool_calls`.
pub record Completion : Type 0 where
  pub content : Option String
  pub tool_calls : List ToolCall
  pub finish_reason : String
  pub prompt_tokens : ℤ
  pub completion_tokens : ℤ
  pub total_tokens : ℤ

-- The roles that the translations tell apart.
pub data Role (r : String) : Type 0 where
  system : r ≡ "system" → Role r
  developer : r ≡ "developer" → Role r
  tool : r ≡ "tool" → Role r
  assistant : r ≡ "assistant" → Role r
  other :
      str_eq r "system" ≡ false
      → str_eq r "developer" ≡ false
      → str_eq r "tool" ≡ false
      → str_eq r "assistant" ≡ false
      → Role r

pub Role-cases : (r : String) → Role r
Role-cases r = elim (Bool-cases (str_eq r "system")) [
  | inl e ↦ system ((eq_iff r "system").0 e)
  | inr no_system ↦ elim (Bool-cases (str_eq r "developer")) [
    | inl e ↦ developer ((eq_iff r "developer").0 e)
    | inr no_developer ↦ elim (Bool-cases (str_eq r "tool")) [
      | inl e ↦ tool ((eq_iff r "tool").0 e)
      | inr no_tool ↦ elim (Bool-cases (str_eq r "assistant")) [
        | inl e ↦ assistant ((eq_iff r "assistant").0 e)
        | inr no_assistant ↦ other no_system no_developer no_tool no_assistant
      ]
    ]
  ]
]
