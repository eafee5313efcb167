-- ===== src/Codex/Mirror/Events.antt =====
-- The invariant of Codex/Mirror over one event.
use mathlib.Core.Path.{subst}
use apiforge.Base.{
  ℕ, ◌≡◌, refl, ◌∙◌, ap, sym, inl, inr, String, Bool, true, false, not, ◌||◌, none, some, List, [],
  ◌∷◌, ◌++◌, if◌then◌else◌, str_eq, ℤ, eq_iff, lookup, insert, lookup-insert_self, lookup-All,
  length, append-nil, Bool-cases, Option-cases, arith,
}
use apiforge.Base.Text.{text_append, text_append_empty}
use apiforge.Json.{Json, get, is_object, str, int_of}
use apiforge.Chat.{Frame, chunk, open_delta}
use apiforge.Chat.Client.{Received, receive_all}
use apiforge.Codex.Collector.{
  ToolAcc, Collector, Delta, no_delta, first_non_empty, renamed, late_args, with_args, fresh_acc,
  known_call, new_call, on_item, on_args, on_completed, Kind, text_delta_event, item_added,
  item_done, args_delta_event, completed_event, incomplete_event, failed_event, other_event,
  apply_kind,
}
use apiforge.Codex.Stream.{text_frames, args_frames, emit}
use apiforge.Codex.Keys.{insert-insert}
use apiforge.Codex.Mirror.{Mirrors, more_text, more_args, open_call}

-- What one event must keep.
abbrev pub Kept : (String → String) → List (String × ℕ) → Received → Collector × Delta → Type 0
Kept naming index r (c, d) = Mirrors naming c (emit index d).0 (receive_all r (emit index d).1)

renamed-id : (acc : ToolAcc) (name : String) → (renamed acc name).id ≡ acc.id
unfolding renamed
renamed-id acc name = ground arith

renamed-args : (acc : ToolAcc) (name : String) → (renamed acc name).args ≡ acc.args
unfolding renamed
renamed-args acc name = ground arith

renamed-name :
    (acc : ToolAcc) (name : String) → name ≡ acc.name → (renamed acc name).name ≡ acc.name
unfolding renamed
renamed-name acc name h = elim (Bool-cases (str_eq name "")) [
  | inl blank ↦ rw blank refl
  | inr given ↦ rw given h
]

renamed-fresh : (key name : String) → (renamed (fresh_acc key) name).name ≡ name
unfolding renamed
renamed-fresh key name = elim (Bool-cases (str_eq name "")) [
  | inl blank ↦ rw blank (sym ((eq_iff name "").0 blank))
  | inr given ↦ rw given refl
]

with_args-name : (acc : ToolAcc) (given : String) → (with_args acc given).name ≡ acc.name
unfolding with_args
with_args-name acc given = ground arith

with_args-id : (acc : ToolAcc) (given : String) → (with_args acc given).id ≡ acc.id
unfolding with_args
with_args-id acc given = ground arith

-- Late arguments only ever come to a call that has none.
with_args-late_args :
    (is_done : Bool) (acc : ToolAcc) (given : String)
    → let late = late_args is_done acc given in
      (with_args acc late).args ≡ text_append acc.args late
unfolding with_args late_args
with_args-late_args false acc given = sym (text_append_empty acc.args)
with_args-late_args true acc given = elim (Bool-cases (str_eq acc.args "")) [
  | inr some_args ↦ rw some_args (sym (text_append_empty acc.args))
  | inl bare ↦ rw bare (elim (Bool-cases (str_eq given "")) [
    | inl blank ↦ rw (blank, (eq_iff given "").0 blank) (sym (text_append_empty acc.args))
    | inr some_given ↦
        rw some_given (ap (λ a. text_append a given) (sym ((eq_iff acc.args "").0 bare)))
  ])
]

-- A delta is emitted as a mirror if the client gets its frames.
by_frames :
    {naming : String → String} {c : Collector} (index : List (String × ℕ)) (r : Received)
    (d : Delta) {out : List (String × ℕ) × List Frame}
    → emit index d ≡ out
    → Mirrors naming c out.0 (receive_all r out.1)
    → Kept naming index r (c, d)
by_frames {naming} {c} index r d e h =
    subst (λ o. Mirrors naming c o.0 (receive_all r o.1)) (sym e) h

emit-late :
    (index : List (String × ℕ)) (key given : String)
    → emit index (
        if str_eq given ""
        then no_delta
        else record no_delta { tool_args_key = key; tool_args_data = given })
      ≡ (index, args_frames index key given)
unfolding emit
emit-late index key given = elim (Bool-cases (str_eq given "")) [
  | inl blank ↦ rw blank refl
  | inr some_args ↦ rw some_args (rw some_args refl)
]

known_call-Kept :
    {naming : String → String} {c : Collector} {index : List (String × ℕ)} {r : Received}
    (is_done : Bool) (item : Json) (key : String) (old : ToolAcc)
    → Mirrors naming c index r
    → lookup key c.tools ≡ some old
    → str (get item "name") ≡ naming key
    → Kept naming index r (known_call c is_done item key old)
unfolding known_call
known_call-Kept {naming} {c} {index} {r} is_done item key old h found name_is =
    let acc = renamed old (str (get item "name")) in
    let given = late_args is_done acc (str (get item "arguments")) in
    let own =
      with_args-id acc given
      ∙ renamed-id old (str (get item "name"))
      ∙ lookup-All (λ e. e.1.id ≡ e.0) key c.tools h.own_ids found in
    let more =
      with_args-late_args is_done acc (str (get item "arguments"))
      ∙ ap (λ a. text_append a given) (renamed-args old (str (get item "name"))) in
    let same_name =
      with_args-name acc given
      ∙ renamed-name old (str (get item "name"))
          (name_is ∙ sym (lookup-All (λ e. e.1.name ≡ naming e.0) key c.tools h.named found)) in
    by_frames index r _ (emit-late index key given)
      (more_args key given old (with_args acc given) h found own more same_name)

emit-opened :
    (index : List (String × ℕ)) (acc : ToolAcc) (key given : String)
    → emit index (
        if str_eq given "" then record no_delta { tool_open = some acc } else record {
          text_delta = "";
          tool_open = some (with_args acc given);
          tool_args_key = key;
          tool_args_data = given;
        })
      ≡ (
        insert acc.id (length index) index,
        chunk (open_delta (length index) acc.id acc.name "") none
            ∷ args_frames (insert acc.id (length index) index) key given,
      )
unfolding emit with_args
emit-opened index acc key given = elim (Bool-cases (str_eq given "")) [
  | inl blank ↦ rw blank refl
  | inr some_args ↦ rw some_args (rw some_args refl)
]

new_call-Kept :
    {naming : String → String} {c : Collector} {index : List (String × ℕ)} {r : Received}
    (is_done : Bool) (item : Json) (key : String)
    → Mirrors naming c index r
    → lookup key c.tools ≡ none
    → str (get item "name") ≡ naming key
    → Kept naming index r (new_call c is_done item key)
unfolding new_call receive_all
new_call-Kept {naming} {c} {index} {r} is_done item key h missing name_is =
    let name = str (get item "name") in
    let acc = renamed (fresh_acc key) name in
    let given = late_args is_done acc (str (get item "arguments")) in
    let own = renamed-id (fresh_acc key) name in
    let opened =
      open_call key acc h missing own (renamed-args (fresh_acc key) name)
        (renamed-fresh key name ∙ name_is) in
    let late =
      more_args key given acc (with_args acc given) opened (lookup-insert_self key acc c.tools)
        (with_args-id acc given ∙ own)
        (with_args-late_args is_done acc (str (get item "arguments"))) (with_args-name acc given) in
    by_frames index r _ (emit-opened index acc key given) (
      subst
        (λ m.
          Mirrors naming
            (record c { tools = m; order = c.order ++ key ∷ []; finish = "tool_calls" })
            (insert acc.id (length index) index)
            (receive_all r (
              chunk (open_delta (length index) acc.id acc.name "") none
              ∷ args_frames (insert acc.id (length index) index) key given)))
        (insert-insert key acc (with_args acc given) c.tools) late)

-- The call that an item tells of has the name that `naming` gives its key.
abbrev pub IsNamed : (String → String) → String → Json → Type 0
IsNamed naming new_id item =
    is_object item ≡ true
    → str_eq (str (get item "type")) "function_call" ≡ true
    → str (get item "name")
      ≡ naming (first_non_empty (str (get item "call_id") ∷ str (get item "id") ∷ new_id ∷ []))

on_item-Kept :
    {naming : String → String} {c : Collector} {index : List (String × ℕ)} {r : Received}
    (new_id : String) (is_done : Bool) (item : Json)
    → Mirrors naming c index r
    → IsNamed naming new_id item
    → Kept naming index r (on_item c new_id is_done item)
unfolding on_item emit receive_all
on_item-Kept {naming} {c} {index} {r} new_id is_done item h names =
    let key = first_non_empty (str (get item "call_id") ∷ str (get item "id") ∷ new_id ∷ []) in
    elim (Bool-cases
      (not (is_object item) || not (str_eq (str (get item "type")) "function_call"))) [
        | inl skipped ↦ rw skipped h
        | inr call ↦
            let name_is = names (ground (arith, call)) (ground (arith, call)) in
            rw call (elim (Option-cases (lookup key c.tools)) [
              | inl missing ↦ rw missing (new_call-Kept is_done item key h missing name_is)
              | inr (old, found) ↦ rw found (known_call-Kept is_done item key old h found name_is)
            ])
      ]

on_args-Kept :
    {naming : String → String} {c : Collector} {index : List (String × ℕ)} {r : Received}
    (key d : String)
    → Mirrors naming c index r
    → Kept naming index r (on_args c key d)
unfolding on_args emit receive_all
on_args-Kept {naming} {c} {index} {r} key d h = elim (Option-cases (lookup key c.tools)) [
  | inl missing ↦ rw (missing, on_args) h
  | inr (old, found) ↦
      rw (found, on_args)
        (more_args key d old (record old { args = text_append old.args d }) h found
          (lookup-All (λ e. e.1.id ≡ e.0) key c.tools h.own_ids found) refl refl)
]

-- The other fields of the collector are not streamed.
not_streamed :
    {naming : String → String} {c : Collector} {index : List (String × ℕ)} {r : Received}
    (finish : String) (in_tok out_tok : ℤ) (completed failed : Bool)
    → Mirrors naming c index r
    → Mirrors naming
        (record c {
          finish = finish;
          in_tok = in_tok;
          out_tok = out_tok;
          completed = completed;
          failed = failed;
        })
        index
        r
not_streamed finish in_tok out_tok completed failed h = record {
  same_text = h.same_text;
  same_calls = h.same_calls;
  same_order = h.same_order;
  same_index = h.same_index;
  own_ids = h.own_ids;
  named = h.named;
  fresh = h.fresh;
  unfinished = h.unfinished;
}

pub apply_kind-Kept :
    {naming : String → String} {c : Collector} {index : List (String × ℕ)} {r : Received} (k : Kind)
    (new_id : String) (evt : Json)
    → Mirrors naming c index r
    → IsNamed naming new_id (get evt "item")
    → Kept naming index r (apply_kind k c new_id evt)
unfolding apply_kind on_completed emit receive_all
apply_kind-Kept {naming} {c} {index} {r} text_delta_event new_id evt h names =
    let s = str (get evt "delta") in
    subst (λ fs. Mirrors naming (record c { text = text_append c.text s }) index (receive_all r fs))
      (sym (append-nil (text_frames s))) (more_text s h)
apply_kind-Kept item_added new_id evt h names = on_item-Kept new_id false (get evt "item") h names
apply_kind-Kept item_done new_id evt h names = on_item-Kept new_id true (get evt "item") h names
apply_kind-Kept args_delta_event new_id evt h names =
    on_args-Kept (first_non_empty (str (get evt "call_id") ∷ str (get evt "item_id") ∷ []))
      (str (get evt "delta")) h
apply_kind-Kept {naming} {c} completed_event new_id evt h names =
    elim (Bool-cases (is_object (get (get evt "response") "usage"))) [
      | inl usage ↦ rw usage (
          not_streamed c.finish (int_of (get (get (get evt "response") "usage") "input_tokens"))
            (int_of (get (get (get evt "response") "usage") "output_tokens")) true c.failed h)
      | inr no_usage ↦ rw no_usage (not_streamed c.finish c.in_tok c.out_tok true c.failed h)
    ]
apply_kind-Kept {naming} {c} incomplete_event new_id evt h names =
    not_streamed "length" c.in_tok c.out_tok true c.failed h
apply_kind-Kept {naming} {c} failed_event new_id evt h names =
    not_streamed c.finish c.in_tok c.out_tok c.completed true h
apply_kind-Kept other_event new_id evt h names = h
