-- ===== src/Codex/Mirror.antt =====
-- The invariant between the state of the collector, the index of the tools in the stream, and what a
-- client has read of the stream.
pub mod Events
pub mod Answer
use mathlib.Core.Path.{subst}
use mathlib.Core.Option.{some-injective}
use apiforge.Base.{
  ℕ, zero, suc, ◌+◌, ◌≡◌, refl, ◌∙◌, ap, sym, inl, inr, String, Bool, true, false, not, ◌&&◌, ◌||◌,
  Option, none, some, List, [], ◌∷◌, ◌++◌, map, if◌then◌else◌, str_eq, eq_iff, eq_refl, lookup,
  insert, lookup-insert, lookup-insert_self, insert-All, lookup-All, length, length-append,
  length-map, All, Bool-cases, Option-cases, arith,
}
use apiforge.Base.Text.{text_append, text_append_empty}
use apiforge.Json.{Json, get, is_object, str, int_of}
use apiforge.Chat.{
  ToolCall, Frame, chunk, done, content_delta, open_delta, args_delta, empty_delta, role_delta,
}
use apiforge.Chat.Client.{
  Received, nothing, extend_at, open_at, open_at-next, receive, receive_all, receive_all-append,
}
use apiforge.Codex.Collector.{
  ToolAcc, Collector, new_collector, Delta, no_delta, first_non_empty, renamed, late_args,
  with_args, fresh_acc, known_call, new_call, on_item, on_args, on_completed, Kind,
  text_delta_event, item_added, item_done, args_delta_event, completed_event, incomplete_event,
  failed_event, other_event, kind, apply_kind, apply,
}
use apiforge.Codex.Stream.{
  text_frames, index_of, args_frames, emit, and_then, stream_from, stream_chat_completion,
}
use apiforge.Codex.Keys.{
  keys, insert_new, keys-insert_known, insert-insert, keys-append, numbered, length-numbered,
  numbered-append, lookup-numbered_new, view, told, view-append, view-insert_known,
}

extend_at_empty : (i : ℕ) (m : List ToolCall) → extend_at i "" m ≡ m
extend_at_empty i [] = refl
extend_at_empty zero (e ∷ m) =
    ap (λ a. record e { arguments = a } ∷ m) (text_append_empty e.arguments)
extend_at_empty (suc i) (e ∷ m) = ap (◌∷◌ e) (extend_at_empty i m)

-- No key stands twice.
abbrev pub Fresh : List (String × ToolAcc) → Type 0
Fresh [] = Unit
Fresh (e ∷ m) = (lookup e.0 m ≡ none) × Fresh m

insert-Fresh :
    (k : String) (v : ToolAcc) (m : List (String × ToolAcc)) → Fresh m → Fresh (insert k v m)
unfolding insert lookup
insert-Fresh k v [] h = (refl, tt)
insert-Fresh k v (e ∷ m) h = elim (Bool-cases (str_eq e.0 k)) [
  | inl same ↦ rw same (subst (λ j. lookup j m ≡ none) ((eq_iff e.0 k).0 same) h.0, h.1)
  | inr other ↦
      rw other
        (ground (arith, lookup-insert k e.0 v m, eq_iff k e.0, eq_refl e.0), insert-Fresh k v m h.1)
]

-- The state of the collector, the index of the tools and what the client has read agree, where the
-- call with the key `k` is named `naming k`.
pub record Mirrors (naming : String → String) (c : Collector) (index : List (String × ℕ))
    (r : Received) : Type 0 where
  pub same_text : r.text ≡ c.text
  pub same_calls : r.calls ≡ view c.tools
  pub same_order : c.order ≡ keys c.tools
  pub same_index : index ≡ numbered 0 (keys c.tools)
  pub own_ids : All (λ e. e.1.id ≡ e.0) c.tools
  pub named : All (λ e. e.1.name ≡ naming e.0) c.tools
  pub fresh : Fresh c.tools
  pub unfinished : r.finish ≡ none

abbrev pub bare : String → Delta
bare s = record no_delta { text_delta = s }

-- Frames for an empty text are left out, which makes no difference to the client.
receive_all-text_frames :
    (r : Received) (s : String)
    → receive_all r (text_frames s) ≡ record r { text = text_append r.text s }
unfolding receive_all
receive_all-text_frames r s = elim (Bool-cases (str_eq s "")) [
  | inl blank ↦ rw blank (
      ap (λ t. record r { text = t })
        (sym (ap (text_append r.text) ((eq_iff s "").0 blank) ∙ text_append_empty r.text)))
  | inr some_text ↦ rw some_text refl
]

receive_all-args_frames :
    (r : Received) (index : List (String × ℕ)) (key s : String)
    → receive_all r (args_frames index key s)
      ≡ record r { calls = extend_at (index_of (lookup key index)) s r.calls }
unfolding receive_all
receive_all-args_frames r index key s = elim (Bool-cases (str_eq s "")) [
  | inl blank ↦ rw blank (
      ap (λ m. record r { calls = m })
        (sym (
          ap (λ t. extend_at (index_of (lookup key index)) t r.calls) ((eq_iff s "").0 blank)
          ∙ extend_at_empty (index_of (lookup key index)) r.calls)))
  | inr some_args ↦ rw some_args refl
]

-- Text alone.
pub more_text :
    {naming : String → String} {c : Collector} {index : List (String × ℕ)} {r : Received}
    (s : String)
    → Mirrors naming c index r
    → Mirrors naming
        (record c { text = text_append c.text s })
        index
        (receive_all r (text_frames s))
more_text {naming} {c} {index} {r} s h =
    subst (Mirrors naming (record c { text = text_append c.text s }) index)
      (sym (receive_all-text_frames r s))
      (record {
        same_text = ap (λ t. text_append t s) h.same_text;
        same_calls = h.same_calls;
        same_order = h.same_order;
        same_index = h.same_index;
        own_ids = h.own_ids;
        named = h.named;
        fresh = h.fresh;
        unfinished = h.unfinished;
      })

-- Arguments of a known call.
pub more_args :
    {naming : String → String} {c : Collector} {index : List (String × ℕ)} {r : Received}
    (key s : String) (old acc : ToolAcc)
    → Mirrors naming c index r
    → lookup key c.tools ≡ some old
    → acc.id ≡ key
    → acc.args ≡ text_append old.args s
    → acc.name ≡ old.name
    → Mirrors naming
        (record c { tools = insert key acc c.tools })
        index
        (receive_all r (args_frames index key s))
unfolding index_of
more_args {naming} {c} {index} {r} key s old acc h found own more same_name =
    let (i, at, seen) = view-insert_known key s old acc 0 c.tools found more same_name in
    let same_keys = keys-insert_known key old acc c.tools found in
    let index_is : index_of (lookup key index) ≡ i =
      ap (λ m. index_of (lookup key m)) h.same_index ∙ ap index_of at ∙ omega arith in
    subst (Mirrors naming (record c { tools = insert key acc c.tools }) index)
      (sym (receive_all-args_frames r index key s))
      (record {
        same_text = h.same_text;
        same_calls =
            ap (λ j. extend_at j s r.calls) index_is ∙ ap (extend_at i s) h.same_calls ∙ sym seen;
        same_order = h.same_order ∙ sym same_keys;
        same_index = h.same_index ∙ ap (numbered 0) (sym same_keys);
        own_ids = insert-All (λ e. e.1.id ≡ e.0) key acc c.tools h.own_ids own;
        named =
            insert-All (λ e. e.1.name ≡ naming e.0) key acc c.tools h.named
              (same_name ∙ lookup-All (λ e. e.1.name ≡ naming e.0) key c.tools h.named found);
        fresh = insert-Fresh key acc c.tools h.fresh;
        unfinished = h.unfinished;
      })

new_index :
    (key : String) (tools : List (String × ToolAcc))
    → lookup key tools ≡ none
    → insert key (length (numbered 0 (keys tools))) (numbered 0 (keys tools))
      ≡ numbered 0 (keys tools ++ key ∷ [])
new_index key tools missing =
    let ks = keys tools in
    insert_new key (length (numbered 0 ks)) (numbered 0 ks)
      (lookup-numbered_new key 0 tools missing)
    ∙ ap (λ n. numbered 0 ks ++ (key, n) ∷ []) (length-numbered 0 ks ∙ omega arith)
    ∙ sym (numbered-append 0 ks key)

-- A new call, opened without arguments.
pub open_call :
    {naming : String → String} {c : Collector} {index : List (String × ℕ)} {r : Received}
    (key : String) (acc : ToolAcc)
    → Mirrors naming c index r
    → lookup key c.tools ≡ none
    → acc.id ≡ key
    → acc.args ≡ ""
    → acc.name ≡ naming key
    → Mirrors naming
        (record c {
          tools = insert key acc c.tools;
          order = c.order ++ key ∷ [];
          finish = "tool_calls";
        })
        (insert acc.id (length index) index)
        (receive r (chunk (open_delta (length index) acc.id acc.name "") none))
open_call {naming} {c} {index} {r} key acc h missing own bare_args name_is =
    let grown = insert_new key acc c.tools missing in
    let more_keys : keys (insert key acc c.tools) ≡ keys c.tools ++ key ∷ [] =
      ap keys grown ∙ keys-append c.tools ((key, acc) ∷ []) in
    let at_end : length index ≡ length r.calls =
      ap length h.same_index
      ∙ length-numbered 0 (keys c.tools)
      ∙ length-map c.tools (λ e. e.0)
      ∙ sym (length-map c.tools told)
      ∙ ap length (sym h.same_calls) in
    record {
      same_text = h.same_text;
      same_calls =
          ap (λ i. open_at i acc.id acc.name "" r.calls) at_end
          ∙ open_at-next r.calls acc.id acc.name ""
          ∙ ap (λ m. m ++ record { id = acc.id; name = acc.name; arguments = "" } ∷ []) h.same_calls
          ∙ ap (λ e. view c.tools ++ e ∷ [])
              (ap (λ j. record { id = j; name = acc.name; arguments = "" }) own
                ∙ ap (λ a. record { id = key; name = acc.name; arguments = a }) (sym bare_args))
          ∙ sym (ap view grown ∙ view-append c.tools ((key, acc) ∷ []));
      same_order = ap (λ m. m ++ key ∷ []) h.same_order ∙ sym more_keys;
      same_index =
          ap (λ j. insert j (length index) index) own
          ∙ ap (λ m. insert key (length m) m) h.same_index
          ∙ new_index key c.tools missing
          ∙ ap (numbered 0) (sym more_keys);
      own_ids = insert-All (λ e. e.1.id ≡ e.0) key acc c.tools h.own_ids own;
      named = insert-All (λ e. e.1.name ≡ naming e.0) key acc c.tools h.named name_is;
      fresh = insert-Fresh key acc c.tools h.fresh;
      unfinished = h.unfinished;
    }
