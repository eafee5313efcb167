-- ===== src/Claude/Streaming.antt =====
-- The stream of a message and the message itself. `UpBlock` is a block of Anthropic's stream, with the
-- pieces that its deltas bring.
use apiforge.Base.{
  ℕ, suc, ◌≡◌, refl, ◌∙◌, ap, sym, String, true, false, none, some, List, [], ◌∷◌, ◌++◌, append-nil,
  append_assoc, map, if◌then◌else◌, str_eq, ℤ, pos, length, length-append, arith,
}
use apiforge.Base.Text.{text_append, text_append_empty, text_append_assoc}
use apiforge.Json.{Json, text, number, obj, get, get_in, str, int_of}
use apiforge.Chat.{ToolCall}
use apiforge.Chat.Client.{filled, Received, nothing, extend_at, open_at, open_at-next, receive_all}
use apiforge.Claude.Response.{
  ContentBlock, Message, finish_for, text_of_blocks, calls_of_blocks, anthropic_to_openai,
}
use apiforge.Claude.Stream.{
  tool_at, Streamed, on_block_start, on_block_delta, on_message_delta, on_message_start,
  on_event_of, on_event, stream_messages, stream_messages_to_openai,
}

pub data UpBlock : Type 0 where
  text_pieces : List String → UpBlock
  tool_pieces : String → String → List String → UpBlock

abbrev block_start : ℕ → Json → Json
block_start n block = obj (
    ("type", text "content_block_start")
    ∷ ("index", number (pos n))
    ∷ ("content_block", block)
    ∷ [])

abbrev block_delta : ℕ → String → String → String → Json
block_delta n type key piece = obj (
    ("type", text "content_block_delta")
    ∷ ("index", number (pos n))
    ∷ ("delta", obj (("type", text type) ∷ (key, text piece) ∷ []))
    ∷ [])

abbrev block_stop : ℕ → Json
block_stop n = obj (("type", text "content_block_stop") ∷ ("index", number (pos n)) ∷ [])

abbrev block_events : ℕ → UpBlock → List Json
block_events n (text_pieces pieces) =
    block_start n (obj (("type", text "text") ∷ ("text", text "") ∷ []))
    ∷ map (block_delta n "text_delta" "text") pieces
block_events n (tool_pieces id name pieces) =
    block_start n (obj (("type", text "tool_use") ∷ ("id", text id) ∷ ("name", text name) ∷ []))
    ∷ map (block_delta n "input_json_delta" "partial_json") pieces

abbrev events_from : ℕ → List UpBlock → List Json → List Json
events_from n [] ending = ending
events_from n (b ∷ rest) ending = block_events n b ++ block_stop n ∷ events_from (suc n) rest ending

abbrev ending_events : String → List Json
ending_events stop =
    obj (("type", text "message_delta") ∷ ("delta", obj (("stop_reason", text stop) ∷ [])) ∷ [])
    ∷ obj (("type", text "message_stop") ∷ [])
    ∷ []

-- The events of a whole message.
abbrev pub message_events : List UpBlock → String → List Json
message_events blocks stop =
    obj (("type", text "message_start") ∷ []) ∷ events_from 0 blocks (ending_events stop)

abbrev join : List String → String
join [] = ""
join (s ∷ rest) = text_append s (join rest)

abbrev whole_block : UpBlock → ContentBlock
whole_block (text_pieces pieces) = record {
  type = "text";
  text = join pieces;
  id = "";
  name = "";
  input = "";
}
whole_block (tool_pieces id name pieces) = record {
  type = "tool_use";
  text = "";
  id = id;
  name = name;
  input = join pieces;
}

-- The message that is answered at once.
abbrev pub whole_message : List UpBlock → String → ℤ → ℤ → Message
whole_message blocks stop in_tokens out_tokens = record {
  content = map whole_block blocks;
  stop_reason = stop;
  input_tokens = in_tokens;
  output_tokens = out_tokens;
}

abbrev got : String → List ToolCall → Received
got t calls = record { text = t; calls = calls; finish = none }

-- The deltas of a text block.
stream_messages-texts :
    (t : String) (calls : List ToolCall) (s : Streamed) (n : ℕ) (pieces : List String)
    (rest : List Json)
    → receive_all
        (got t calls)
        (stream_messages s (map (block_delta n "text_delta" "text") pieces ++ rest))
      ≡ receive_all (got (text_append t (join pieces)) calls) (stream_messages s rest)
unfolding receive_all stream_messages on_event on_event_of on_block_delta get get_in str
stream_messages-texts t calls s n [] rest =
    ap (λ x. receive_all (got x calls) (stream_messages s rest)) (sym (text_append_empty t))
stream_messages-texts t calls s n (piece ∷ pieces) rest =
    stream_messages-texts (text_append t piece) calls s n pieces rest
    ∙ ap (λ x. receive_all (got x calls) (stream_messages s rest))
        (text_append_assoc t piece (join pieces))

abbrev made : String → String → String → ToolCall
made id name args = record { id = id; name = name; arguments = args }

extend_at-last :
    (calls : List ToolCall) (id name args more : String)
    → extend_at (length calls) more (calls ++ made id name args ∷ [])
      ≡ calls ++ made id name (text_append args more) ∷ []
extend_at-last [] id name args more = refl
extend_at-last (call ∷ calls) id name args more =
    ap (◌∷◌ call) (extend_at-last calls id name args more)

-- The deltas of a tool's block.
stream_messages-args :
    (t : String) (calls : List ToolCall) (id name args : String) (s : Streamed) (n : ℕ)
    (pieces : List String) (rest : List Json)
    → tool_at (pos n) s.tool_index_by_block ≡ some (length calls)
    → receive_all
        (got t (calls ++ made id name args ∷ []))
        (stream_messages s (map (block_delta n "input_json_delta" "partial_json") pieces ++ rest))
      ≡ receive_all
          (got t (calls ++ made id name (text_append args (join pieces)) ∷ []))
          (stream_messages s rest)
unfolding receive_all stream_messages on_event on_event_of on_block_delta get get_in str int_of
stream_messages-args t calls id name args s n [] rest h =
    ap (λ a. receive_all (got t (calls ++ made id name a ∷ [])) (stream_messages s rest))
      (sym (text_append_empty args))
stream_messages-args t calls id name args s n (piece ∷ pieces) rest h =
    let more = stream_messages-args t calls id name (text_append args piece) s n pieces rest h in
    rw (h, stream_messages)
      (ap
          (λ cs. receive_all (got t cs) (
            stream_messages s
              (map (block_delta n "input_json_delta" "partial_json") pieces ++ rest)))
          (extend_at-last calls id name args piece)
        ∙ more
        ∙ ap (λ a. receive_all (got t (calls ++ made id name a ∷ [])) (stream_messages s rest))
            (text_append_assoc args piece (join pieces)))

-- What the blocks add to the client's calls.
abbrev calls_told : List UpBlock → List ToolCall
calls_told [] = []
calls_told (text_pieces pieces ∷ rest) = calls_told rest
calls_told (tool_pieces id name pieces ∷ rest) = made id name (join pieces) ∷ calls_told rest

abbrev text_told : List UpBlock → String
text_told [] = ""
text_told (text_pieces pieces ∷ rest) = text_append (join pieces) (text_told rest)
text_told (tool_pieces id name pieces ∷ rest) = text_told rest

tool_at-newest : (n t : ℕ) (m : List (ℤ × ℕ)) → tool_at (pos n) ((pos n, t) ∷ m) ≡ some t
unfolding tool_at
tool_at-newest n t m = ground arith

-- From any point of the stream the client gets the rest of the message.
stream_messages-rest :
    (t : String) (calls : List ToolCall) (s : Streamed) (n : ℕ) (blocks : List UpBlock)
    (stop : String)
    → s.next_tool ≡ length calls
    → str_eq stop "" ≡ false
    → receive_all (got t calls) (stream_messages s (events_from n blocks (ending_events stop)))
      ≡ record {
        text = text_append t (text_told blocks);
        calls = calls ++ calls_told blocks;
        finish = some (finish_for stop);
      }
unfolding receive_all stream_messages on_event on_event_of on_block_start on_message_delta get
    get_in str int_of tool_at
stream_messages-rest t calls s n [] stop h e =
    rw (e, stream_messages)
      (ap (λ x. record { text = x; calls = calls; finish = some (finish_for stop) })
          (sym (text_append_empty t))
        ∙ ap (λ cs. record { text = text_append t ""; calls = cs; finish = some (finish_for stop) })
            (sym (append-nil calls)))
stream_messages-rest t calls s n (text_pieces pieces ∷ rest) stop h e =
    stream_messages-texts t calls s n pieces
      (block_stop n ∷ events_from (suc n) rest (ending_events stop))
    ∙ stream_messages-rest (text_append t (join pieces)) calls s (suc n) rest stop h e
    ∙ ap
        (λ x. record {
          text = x;
          calls = calls ++ calls_told rest;
          finish = some (finish_for stop);
        })
        (text_append_assoc t (join pieces) (text_told rest))
stream_messages-rest t calls s n (tool_pieces id name pieces ∷ rest) stop h e =
    let opened : Streamed = record {
      tool_index_by_block = (pos n, s.next_tool) ∷ s.tool_index_by_block;
      next_tool = suc s.next_tool;
      sent_role = s.sent_role;
    } in
    let later = block_stop n ∷ events_from (suc n) rest (ending_events stop) in
    let known = tool_at-newest n s.next_tool s.tool_index_by_block ∙ ap some h in
    let told = calls ++ made id name (join pieces) ∷ [] in
    let placed = ap (λ i. open_at i id name "" calls) h ∙ open_at-next calls id name "" in
    let counted : suc s.next_tool ≡ length told =
      omega (arith, length-append calls (made id name (join pieces) ∷ []), h) in
    ap
      (λ cs. receive_all (got t cs) (
        stream_messages opened
          (map (block_delta n "input_json_delta" "partial_json") pieces ++ later)))
      placed
    ∙ stream_messages-args t calls id name "" opened n pieces later known
    ∙ stream_messages-rest t told opened (suc n) rest stop counted e
    ∙ ap
        (λ cs. record {
          text = text_append t (text_told rest);
          calls = cs;
          finish = some (finish_for stop);
        })
        (append_assoc calls (made id name (join pieces) ∷ []) (calls_told rest))

text_of_blocks-whole :
    (blocks : List UpBlock) → text_of_blocks (map whole_block blocks) ≡ text_told blocks
unfolding text_of_blocks
text_of_blocks-whole [] = refl
text_of_blocks-whole (text_pieces pieces ∷ rest) =
    ap (text_append (join pieces)) (text_of_blocks-whole rest)
text_of_blocks-whole (tool_pieces id name pieces ∷ rest) = text_of_blocks-whole rest

calls_of_blocks-whole :
    (blocks : List UpBlock)
    → (calls_of_blocks (map whole_block blocks)) ≡ map filled (calls_told blocks)
unfolding calls_of_blocks
calls_of_blocks-whole [] = refl
calls_of_blocks-whole (text_pieces pieces ∷ rest) = calls_of_blocks-whole rest
calls_of_blocks-whole (tool_pieces id name pieces ∷ rest) =
    ap (◌∷◌ (filled (made id name (join pieces)))) (calls_of_blocks-whole rest)

-- For every message of text and `tool_use` blocks with a stop reason, however the blocks are cut into
-- pieces, a client reads from the stream of its events the text, the calls (each at its index, with its
-- id, name and arguments, an empty argument text as `{}`) and the reason of the completion that the
-- whole message is translated to.
pub stream_messages_to_openai-whole :
    (blocks : List UpBlock) (stop : String) (in_tokens out_tokens : ℤ)
    → str_eq stop "" ≡ false
    → let r = receive_all nothing (stream_messages_to_openai (message_events blocks stop)) in
      let m = anthropic_to_openai (whole_message blocks stop in_tokens out_tokens) in
      (m.content ≡ (if str_eq r.text "" then none else some r.text))
      × (m.tool_calls ≡ map filled r.calls)
      × (r.finish ≡ some m.finish_reason)
unfolding receive_all stream_messages on_event on_event_of on_message_start get get_in str
    anthropic_to_openai
stream_messages_to_openai-whole blocks stop in_tokens out_tokens e =
    let begun : Streamed = record { tool_index_by_block = []; next_tool = 0; sent_role = true } in
    let read = stream_messages-rest "" [] begun 0 blocks stop refl e in
    (
      ap (λ t. if str_eq t "" then none else some t)
          (text_of_blocks-whole blocks ∙ sym (ap (λ r. r.text) read)),
      calls_of_blocks-whole blocks ∙ sym (ap (λ r. map filled r.calls) read),
      ap (λ r. r.finish) read,
    )
