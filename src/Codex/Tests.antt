-- ===== src/Codex/Tests.antt =====
-- The statements about the Codex provider at concrete inputs.
use apiforge.Base.{
  arith, ℕ, ◌≡◌, refl, ◌⊎◌, String, true, false, Option, none, some, List, [], ◌∷◌, map,
  if◌then◌else◌, str_eq, pos, lookup, insert,
}
use apiforge.Json.{Json, text, obj, get, get_in, str, int_of}
use apiforge.Chat.{plain, null_content, ChatMessage, Completion}
use apiforge.Chat.Client.{nothing, receive_all, filled}
use apiforge.Server.Images.{ImageRequest}
use apiforge.Codex.{ChatRequest}
use apiforge.Codex.Collector.{
  apply, kind_of, apply_kind, on_item, on_args, on_completed, known_call, new_call, first_non_empty,
  renamed, late_args, with_args,
}
use apiforge.Codex.Stream.{
  stream_chat_completion, collected, collect_from, completion_of, tool_calls_of,
  aggregate_chat_completion,
}
use apiforge.Codex.Mirror.Answer.{
  AllNamed, until_end, Agree, stream_chat_completion-Agree, aggregate_chat_completion-streamed,
}
use apiforge.Codex.Images
use apiforge.Codex.Images.{
  CollectedImage, collect_image, on_image_event, on_partial, item_image, last_resort,
}
use apiforge.Codex.Images.Collecting.{Finishes, Shows, Completes, Some, collect_image-Sourced}
use apiforge.Codex.Backend.Requests.{asked, shown, IsAnswer, images-IsAnswer}
use apiforge.Codex.Backend.{images}

abbrev no_ids : ℕ → String
no_ids n = "call_new"

abbrev text_event : String → Json
text_event s = obj (("type", text "response.output_text.delta") ∷ ("delta", text s) ∷ [])

abbrev tool_added : Json
tool_added = obj (
    ("type", text "response.output_item.added")
    ∷ (
      "item",
      obj (("type", text "function_call") ∷ ("call_id", text "c1") ∷ ("name", text "ls") ∷ []),
    )
    ∷ [])

abbrev tool_args : String → Json
tool_args s = obj (
    ("type", text "response.function_call_arguments.delta")
    ∷ ("call_id", text "c1")
    ∷ ("delta", text s)
    ∷ [])

abbrev stream_of_a_call : List Json
stream_of_a_call =
    text_event "Look"
    ∷ tool_added
    ∷ tool_args "[1"
    ∷ tool_args "]"
    ∷ obj (("type", text "response.completed") ∷ [])
    ∷ []

abbrev all_ls : String → String
all_ls key = "ls"

one_name : AllNamed all_ls no_ids 0 stream_of_a_call
unfolding get get_in str
one_name = ((λ no. cc), ((λ is call. refl), ((λ no. cc), ((λ no. cc), ((λ no. cc), tt)))))

abbrev completion_of_a_call : Completion
completion_of_a_call = record {
  content = some "Look";
  tool_calls = record { id = "c1"; name = "ls"; arguments = "[1]" } ∷ [];
  finish_reason = "tool_calls";
  prompt_tokens = pos 0;
  completion_tokens = pos 0;
  total_tokens = pos 0;
}

stream_chat_completion-Agree_example :
    Agree
      (collected no_ids (until_end stream_of_a_call))
      (receive_all nothing (stream_chat_completion no_ids stream_of_a_call))
stream_chat_completion-Agree_example =
    stream_chat_completion-Agree all_ls no_ids stream_of_a_call one_name

completed_at_once : aggregate_chat_completion no_ids stream_of_a_call ≡ some completion_of_a_call
unfolding aggregate_chat_completion collect_from apply kind_of apply_kind on_item on_args
    on_completed known_call new_call first_non_empty renamed late_args with_args completion_of
    tool_calls_of lookup insert get get_in str int_of
completed_at_once = refl

ends_once : until_end stream_of_a_call ≡ stream_of_a_call
unfolding until_end kind_of get get_in str
ends_once = refl

aggregate_chat_completion-streamed_example :
    let r = receive_all nothing (stream_chat_completion no_ids stream_of_a_call) in
    (some "Look" ≡ (if str_eq r.text "" then none else some r.text))
    × (completion_of_a_call.tool_calls ≡ map filled r.calls)
    × (r.finish ≡ some "tool_calls")
aggregate_chat_completion-streamed_example =
    aggregate_chat_completion-streamed all_ls no_ids stream_of_a_call completion_of_a_call one_name
      ends_once completed_at_once

abbrev said_by : String → String → ChatMessage
said_by role s = record { role = role; content = plain s; tool_call_id = ""; tool_calls = [] }

abbrev asking : ChatRequest
asking = record {
  model = "gpt-5.5";
  messages =
      said_by "system" "Be brief."
      ∷ said_by "user" "List"
      ∷ record {
        role = "assistant";
        content = null_content;
        tool_call_id = "";
        tool_calls = record { id = "c1"; name = "ls"; arguments = "[]" } ∷ [];
      }
      ∷ record { role = "tool"; content = plain "a b"; tool_call_id = "c1"; tool_calls = [] }
      ∷ [];
  tools = [];
  tool_choice = none;
  reasoning_effort = "";
  stream = true;
}

abbrev partial_event : Json
partial_event = obj (
    ("type", text "response.image_generation_call.partial_image")
    ∷ ("partial_image_b64", text "AAA")
    ∷ [])

abbrev partial_stream : List Json
partial_stream = partial_event ∷ obj (("type", text "response.completed") ∷ []) ∷ []

abbrev partial_result : CollectedImage
partial_result = record { b64 = "AAA"; output_format = "png"; size = ""; revised_prompt = "" }

collected_partial : collect_image partial_stream ≡ (some partial_result, true)
unfolding Images.collect_from on_image_event on_partial item_image last_resort get get_in str
collected_partial = refl

collect_image-Sourced_example :
    (str_eq "AAA" "" ≡ false)
    × (Some (Finishes "AAA") partial_stream
        ⊎ (true ≡ true) × Some (Shows "AAA") partial_stream × Some Completes partial_stream)
collect_image-Sourced_example =
    collect_image-Sourced partial_stream partial_result true collected_partial

abbrev two_images : ImageRequest
two_images = record {
  model = "gpt-image-1";
  prompt = "a cat";
  n = pos 2;
  size = "";
  quality = "";
  background = "";
  output_format = "";
  images = [];
  mask = none;
}

abbrev always : ℕ → Option CollectedImage
always k = some partial_result

images-IsAnswer_example : IsAnswer (shown always 2) (images always two_images)
images-IsAnswer_example = images-IsAnswer always two_images 2 (asked 2 (omega arith) (omega arith))
