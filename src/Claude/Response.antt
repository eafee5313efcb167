-- ===== src/Claude/Response.antt =====
-- internal/provider/claude/translate.go: `anthropicToOpenAI`, on the decoded message. The `input` of a
-- block is its JSON text.
use apiforge.Base.{
  String, none, some, List, [], ◌∷◌, ◌++◌, if◌then◌else◌, str_eq, ℤ, add_int, lookup,
}
use apiforge.Base.Text.{text_append}
use apiforge.Chat.{ToolCall, Completion}

pub record ContentBlock : Type 0 where
  pub type : String
  pub text : String
  pub id : String
  pub name : String
  pub input : String

pub record Message : Type 0 where
  pub content : List ContentBlock
  pub stop_reason : String
  pub input_tokens : ℤ
  pub output_tokens : ℤ

abbrev pub stop_map : List (String × String)
stop_map =
    ("end_turn", "stop")
    ∷ ("max_tokens", "length")
    ∷ ("stop_sequence", "stop")
    ∷ ("tool_use", "tool_calls")
    ∷ []

unfoldable pub finish_for : String → String
finish_for stop = elim (lookup stop stop_map) [ none ↦ "stop" | some f ↦ f ]

unfoldable pub text_of_blocks : List ContentBlock → String
text_of_blocks [] = ""
text_of_blocks (b ∷ rest) =
    text_append (if str_eq b.type "text" then b.text else "") (text_of_blocks rest)

abbrev pub call_of_block : ContentBlock → List ToolCall
call_of_block b =
    if str_eq b.type "tool_use"
    then record {
      id = b.id;
      name = b.name;
      arguments = if str_eq b.input "" then "{}" else b.input;
    }
      ∷ []
    else []

unfoldable pub calls_of_blocks : List ContentBlock → List ToolCall
calls_of_blocks [] = []
calls_of_blocks (b ∷ rest) = call_of_block b ++ calls_of_blocks rest

unfoldable pub anthropic_to_openai : Message → Completion
unfolding finish_for text_of_blocks calls_of_blocks
anthropic_to_openai m = record {
  content = if str_eq (text_of_blocks m.content) "" then none else some (text_of_blocks m.content);
  tool_calls = calls_of_blocks m.content;
  finish_reason = finish_for m.stop_reason;
  prompt_tokens = m.input_tokens;
  completion_tokens = m.output_tokens;
  total_tokens = add_int m.input_tokens m.output_tokens;
}
