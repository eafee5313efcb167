-- ===== src/Codex/Collector.antt =====
-- internal/provider/codex/translate.go: `collector` and its `apply`, the state that a stream of Codex
-- events is folded into. The entry that `toolOpen` points to is read before the next event, so it is
-- a value here; the id that `idgen.OpenAI("call")` makes is the argument `new_id`.
use apiforge.Base.{
  String, Bool, true, false, not, ◌&&◌, ◌||◌, Option, none, some, List, [], ◌∷◌, ◌++◌,
  if◌then◌else◌, str_eq, lookup, insert, ℤ, pos,
}
use apiforge.Base.Text.{text_append}
use apiforge.Json.{Json, get, is_object, str, int_of}

pub record ToolAcc : Type 0 where
  pub id : String
  pub name : String
  pub args : String

pub record Collector : Type 0 where
  pub text : String
  pub tools : List (String × ToolAcc)
  pub order : List String
  pub finish : String
  pub in_tok : ℤ
  pub out_tok : ℤ
  pub completed : Bool
  pub failed : Bool

abbrev pub new_collector : Collector
new_collector = record {
  text = "";
  tools = [];
  order = [];
  finish = "stop";
  in_tok = pos 0;
  out_tok = pos 0;
  completed = false;
  failed = false;
}

pub record Delta : Type 0 where
  pub text_delta : String
  pub tool_open : Option ToolAcc
  pub tool_args_key : String
  pub tool_args_data : String

abbrev pub no_delta : Delta
no_delta = record { text_delta = ""; tool_open = none; tool_args_key = ""; tool_args_data = "" }

unfoldable pub first_non_empty : List String → String
first_non_empty [] = ""
first_non_empty (v ∷ rest) = if str_eq v "" then first_non_empty rest else v

-- `if n := str(item["name"]); n != "" { acc.name = n }`.
unfoldable pub renamed : ToolAcc → String → ToolAcc
renamed acc name = if str_eq name "" then acc else record acc { name = name }

-- The arguments that a finished item brings to an entry that has none yet.
unfoldable pub late_args : Bool → ToolAcc → String → String
late_args item_done acc given = if item_done && str_eq acc.args "" then given else ""

unfoldable pub with_args : ToolAcc → String → ToolAcc
with_args acc given = if str_eq given "" then acc else record acc { args = given }

abbrev pub fresh_acc : String → ToolAcc
fresh_acc key = record { id = key; name = ""; args = "" }

-- The branch of a function call's item, by whether the key is known.
unfoldable pub known_call : Collector → Bool → Json → String → ToolAcc → Collector × Delta
unfolding renamed late_args with_args
known_call c item_done item key old =
    let acc = renamed old (str (get item "name")) in
    let given = late_args item_done acc (str (get item "arguments")) in
    (
      record c { tools = insert key (with_args acc given) c.tools },
      if str_eq given ""
          then no_delta
          else record no_delta { tool_args_key = key; tool_args_data = given },
    )

unfoldable pub new_call : Collector → Bool → Json → String → Collector × Delta
unfolding renamed late_args with_args
new_call c item_done item key =
    let acc = renamed (fresh_acc key) (str (get item "name")) in
    let given = late_args item_done acc (str (get item "arguments")) in
    (
      record c {
        tools = insert key (with_args acc given) c.tools;
        order = c.order ++ key ∷ [];
        finish = "tool_calls";
      },
      if str_eq given "" then record no_delta { tool_open = some acc } else record {
        text_delta = "";
        tool_open = some (with_args acc given);
        tool_args_key = key;
        tool_args_data = given;
      },
    )

unfoldable pub on_item : Collector → String → Bool → Json → Collector × Delta
unfolding first_non_empty known_call new_call
on_item c new_id item_done item =
    if not (is_object item) || not (str_eq (str (get item "type")) "function_call")
    then (c, no_delta)
    else let key = first_non_empty (str (get item "call_id") ∷ str (get item "id") ∷ new_id ∷ []) in
      elim (lookup key c.tools) [
        | none ↦ new_call c item_done item key
        | some old ↦ known_call c item_done item key old
      ]

-- More arguments for a known call.
unfoldable pub on_args : Collector → String → String → Collector × Delta
on_args c key d = elim (lookup key c.tools) [
  | none ↦ (c, no_delta)
  | some old ↦ (
    record c { tools = insert key (record old { args = text_append old.args d }) c.tools },
    record no_delta { tool_args_key = key; tool_args_data = d },
  )
]

unfoldable pub on_completed : Collector → Json → Collector
on_completed c evt =
    let usage = get (get evt "response") "usage" in
    if is_object usage
    then record c {
      completed = true;
      in_tok = int_of (get usage "input_tokens");
      out_tok = int_of (get usage "output_tokens");
    }
    else record c { completed = true }

-- The kinds of events that the switch of `apply` tells apart.
pub data Kind : Type 0 where
  text_delta_event item_added item_done args_delta_event completed_event incomplete_event
        failed_event other_event :
      Kind

unfoldable pub kind_of : String → Kind
kind_of typ =
    if str_eq typ "response.output_text.delta"
    then text_delta_event
    else if str_eq typ "response.output_item.added"
    then item_added
    else if str_eq typ "response.output_item.done"
    then item_done
    else if str_eq typ "response.function_call_arguments.delta"
        || str_eq typ "response.custom_tool_call_input.delta"
    then args_delta_event
    else if str_eq typ "response.completed"
    then completed_event
    else if str_eq typ "response.incomplete"
    then incomplete_event
    else if str_eq typ "response.failed"
    then failed_event
    else other_event

abbrev pub kind : Json → Kind
kind evt = kind_of (str (get evt "type"))

unfoldable pub apply_kind : Kind → Collector → String → Json → Collector × Delta
unfolding on_item on_args on_completed first_non_empty
apply_kind text_delta_event c new_id evt = (
  record c { text = text_append c.text (str (get evt "delta")) },
  record no_delta { text_delta = str (get evt "delta") },
)
apply_kind item_added c new_id evt = on_item c new_id false (get evt "item")
apply_kind item_done c new_id evt = on_item c new_id true (get evt "item")
apply_kind args_delta_event c new_id evt =
    on_args c (first_non_empty (str (get evt "call_id") ∷ str (get evt "item_id") ∷ []))
      (str (get evt "delta"))
apply_kind completed_event c new_id evt = (on_completed c evt, no_delta)
apply_kind incomplete_event c new_id evt =
    (record c { completed = true; finish = "length" }, no_delta)
apply_kind failed_event c new_id evt = (record c { failed = true }, no_delta)
apply_kind other_event c new_id evt = (c, no_delta)

unfoldable pub apply : Collector → String → Json → Collector × Delta
unfolding kind_of apply_kind
apply c new_id evt = apply_kind (kind evt) c new_id evt
