-- ===== src/Codex/Translation.antt =====
-- The request that `openai_to_codex` builds: what happens to each message, and to their order.
use apiforge.Base.{
  ◌≡◌, ◌∙◌, ap, sym, String, List, [], ◌∷◌, ◌++◌, append-nil, append_assoc, concat_map,
  if◌then◌else◌, str_eq, arith,
}
use apiforge.Chat.{ToolCall, ChatMessage}
use apiforge.Codex.{
  ChatRequest, extract_text, InputItem, function_call_output, function_call, Sorted, unsorted,
  add_message, add_messages, joined, openai_to_codex,
}

-- What one message gives, whatever came before it.
abbrev pub instruction_of : ChatMessage → List String
instruction_of msg = (add_message unsorted msg).instructions

abbrev pub input_of : ChatMessage → List InputItem
input_of msg = (add_message unsorted msg).input

add_message-own :
    (s : Sorted) (msg : ChatMessage)
    → add_message s msg ≡ record {
      instructions = s.instructions ++ instruction_of msg;
      input = s.input ++ input_of msg;
    }
unfolding add_message
add_message-own s msg = ground (arith, append-nil s.instructions, append-nil s.input)

add_messages-own :
    (s : Sorted) (msgs : List ChatMessage)
    → add_messages s msgs ≡ record {
      instructions = s.instructions ++ concat_map instruction_of msgs;
      input = s.input ++ concat_map input_of msgs;
    }
unfolding add_messages
add_messages-own s [] =
    ap (λ is. record s { instructions = is }) (sym (append-nil s.instructions))
    ∙ ap (λ is. record { instructions = s.instructions ++ []; input = is })
        (sym (append-nil s.input))
add_messages-own s (msg ∷ rest) =
    let own = add_message-own s msg in
    add_messages-own (add_message s msg) rest
    ∙ ap
        (λ t. record {
          instructions = t.instructions ++ concat_map instruction_of rest;
          input = t.input ++ concat_map input_of rest;
        })
        own
    ∙ ap
        (λ is. record {
          instructions = is;
          input = s.input ++ input_of msg ++ concat_map input_of rest;
        })
        (append_assoc s.instructions (instruction_of msg) (concat_map instruction_of rest))
    ∙ ap
        (λ is. record {
          instructions = s.instructions ++ (instruction_of msg ++ concat_map instruction_of rest);
          input = is;
        })
        (append_assoc s.input (input_of msg) (concat_map input_of rest))

-- The body's input is what the messages give one by one, in their order, and the instructions are the
-- texts that the system and developer messages give, in their order, with an empty line in between.
pub openai_to_codex-messages :
    (req : ChatRequest) (session_id : String)
    → let body = openai_to_codex req session_id in
      (body.input ≡ concat_map input_of req.messages)
      × (body.instructions ≡ joined (concat_map instruction_of req.messages))
unfolding openai_to_codex
openai_to_codex-messages req session_id =
    let own = add_messages-own unsorted req.messages in
    (ap (λ s. s.input) own, ap (λ s. joined s.instructions) own)

-- The calls and the answers to calls among the input items.
abbrev pub call_item : InputItem → List ToolCall
call_item (function_call name args id) = record { id = id; name = name; arguments = args } ∷ []
call_item _ = []

abbrev pub output_item : InputItem → List (String × String)
output_item (function_call_output id out) = (id, out) ∷ []
output_item _ = []

-- The calls that a message makes and the answer that it gives, by its role.
abbrev pub calls_made : ChatMessage → List ToolCall
calls_made msg = if str_eq msg.role "assistant" then msg.tool_calls else []

abbrev pub outputs_given : ChatMessage → List (String × String)
outputs_given msg =
    if str_eq msg.role "tool" then (msg.tool_call_id, extract_text msg.content) ∷ [] else []
