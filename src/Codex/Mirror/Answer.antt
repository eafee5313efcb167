-- ===== src/Codex/Mirror/Answer.antt =====
-- The answer of a whole stream, as the client reads it and as the collector has it.
use mathlib.Core.Option.{some-injective}
use apiforge.Base.{
  ℕ, suc, ◌≡◌, refl, ◌∙◌, ap, sym, inl, inr, String, Bool, true, false, ◌||◌, Option, none, some,
  List, [], ◌∷◌, ◌++◌, map, if◌then◌else◌, str_eq, eq_iff, eq_refl, lookup, All, Bool-cases, arith,
}
use mathlib.Core.Path.{subst}
use apiforge.Json.{Json, get}
use apiforge.Chat.{Frame, chunk, done, empty_delta, role_delta}
use apiforge.Chat.Client.{filled, Received, nothing, receive, receive_all, receive_all-append}
use apiforge.Codex.Collector.{
  ToolAcc, Collector, new_collector, known_call, new_call, on_item, on_args, on_completed, Kind,
  text_delta_event, item_added, item_done, args_delta_event, completed_event, incomplete_event,
  failed_event, other_event, kind, apply_kind, apply,
}
use apiforge.Codex.Stream.{
  emit, and_then, stream_from, stream_chat_completion, collect_from, collected, call_of,
  tool_calls_of, is_unusable, completion_of, aggregate_chat_completion,
}
use apiforge.Chat.{Completion}
use apiforge.Codex.Keys.{keys, told, view}
use apiforge.Codex.Mirror.{Fresh, Mirrors}
use apiforge.Codex.Mirror.Events.{Kept, IsNamed, apply_kind-Kept}

-- The events that end a stream.
abbrev pub ends : Kind → Bool
ends completed_event = true
ends incomplete_event = true
ends failed_event = true
ends _ = false

-- The events that a stream reads.
unfoldable pub until_end : List Json → List Json
until_end [] = []
until_end (evt ∷ rest) = evt ∷ (if ends (kind evt) then [] else until_end rest)

abbrev pub finish_of : Collector → Option String
finish_of c = if c.failed then none else some c.finish

-- What the client has read is what the collector holds.
pub record Agree (c : Collector) (r : Received) : Type 0 where
  pub same_text : r.text ≡ c.text
  pub same_calls : r.calls ≡ view c.tools
  pub same_order : c.order ≡ keys c.tools
  pub own_ids : All (λ e. e.1.id ≡ e.0) c.tools
  pub fresh : Fresh c.tools
  pub same_finish : r.finish ≡ finish_of c

is_failed : Kind → Bool
is_failed failed_event = true
is_failed _ = false

apply_kind-failed :
    (k : Kind) (c : Collector) (new_id : String) (evt : Json)
    → (apply_kind k c new_id evt).0.failed ≡ (c.failed || is_failed k)
unfolding apply_kind is_failed on_item known_call new_call on_args on_completed
apply_kind-failed text_delta_event c new_id evt = ground arith
apply_kind-failed item_added c new_id evt = ground arith
apply_kind-failed item_done c new_id evt = ground arith
apply_kind-failed args_delta_event c new_id evt = ground arith
apply_kind-failed completed_event c new_id evt = ground arith
apply_kind-failed incomplete_event c new_id evt = ground arith
apply_kind-failed failed_event c new_id evt = ground arith
apply_kind-failed other_event c new_id evt = ground arith

-- The end of the upstream, and its last chunk.
ended :
    {naming : String → String} {c : Collector} {index : List (String × ℕ)} {r : Received}
    → Mirrors naming c index r
    → c.failed ≡ false
    → Agree c (record r { finish = some c.finish })
ended {naming} {c} h e = record {
  same_text = h.same_text;
  same_calls = h.same_calls;
  same_order = h.same_order;
  own_ids = h.own_ids;
  fresh = h.fresh;
  same_finish = rw e refl;
}

broken :
    {naming : String → String} {c : Collector} {index : List (String × ℕ)} {r : Received}
    → Mirrors naming c index r
    → c.failed ≡ true
    → Agree c r
broken {naming} {c} h e = record {
  same_text = h.same_text;
  same_calls = h.same_calls;
  same_order = h.same_order;
  own_ids = h.own_ids;
  fresh = h.fresh;
  same_finish = h.unfinished ∙ rw e refl;
}

-- Every call that the events tell of has one name, that of its key; the n-th event's new id stands in
-- for a missing key.
abbrev pub AllNamed : (String → String) → (ℕ → String) → ℕ → List Json → Type 0
AllNamed naming new_ids n [] = Unit
AllNamed naming new_ids n (evt ∷ rest) =
    IsNamed naming (new_ids n) (get evt "item") × AllNamed naming new_ids (suc n) rest

-- One event and what follows it.
after :
    (k : Kind) (new_ids : ℕ → String) (n : ℕ) {naming : String → String} {c : Collector}
    {index : List (String × ℕ)} (r : Received) (fs more : List Frame) (rest : List Json)
    → Mirrors naming c index (receive_all r fs)
    → c.failed ≡ is_failed k
    → (c.failed ≡ false
        → Agree (collect_from new_ids n c (until_end rest)) (receive_all (receive_all r fs) more))
    → Agree
        (collect_from new_ids n c (if ends k then [] else until_end rest))
        (receive_all r (fs ++ and_then k c more))
unfolding is_failed receive_all collect_from
after completed_event new_ids n {naming} {c} {index} r fs more rest h e go =
    rw (receive_all-append r fs (chunk empty_delta (some c.finish) ∷ done ∷ [])) (ended h e)
after incomplete_event new_ids n {naming} {c} {index} r fs more rest h e go =
    rw (receive_all-append r fs (chunk empty_delta (some c.finish) ∷ done ∷ [])) (ended h e)
after failed_event new_ids n {naming} {c} {index} r fs more rest h e go =
    rw (receive_all-append r fs (done ∷ [])) (broken h e)
after text_delta_event new_ids n {naming} {c} {index} r fs more rest h e go =
    rw (receive_all-append r fs more) (go e)
after item_added new_ids n {naming} {c} {index} r fs more rest h e go =
    rw (receive_all-append r fs more) (go e)
after item_done new_ids n {naming} {c} {index} r fs more rest h e go =
    rw (receive_all-append r fs more) (go e)
after args_delta_event new_ids n {naming} {c} {index} r fs more rest h e go =
    rw (receive_all-append r fs more) (go e)
after other_event new_ids n {naming} {c} {index} r fs more rest h e go =
    rw (receive_all-append r fs more) (go e)

stream_from-Agree :
    (new_ids : ℕ → String) (n : ℕ) {naming : String → String} {c : Collector}
    {index : List (String × ℕ)} {r : Received} (evts : List Json)
    → AllNamed naming new_ids n evts
    → Mirrors naming c index r
    → c.failed ≡ false
    → Agree
        (collect_from new_ids n c (until_end evts))
        (receive_all r (stream_from new_ids n c index evts))
unfolding stream_from collect_from until_end receive_all apply
stream_from-Agree new_ids n [] names h e = ended h e
stream_from-Agree new_ids n {naming} {c} {index} {r} (evt ∷ rest) names h e =
    let out = apply_kind (kind evt) c (new_ids n) evt in
    let kept : Kept naming index r out = apply_kind-Kept (kind evt) (new_ids n) evt h names.0 in
    after (kind evt) new_ids (suc n) r (emit index out.1).1
      (stream_from new_ids (suc n) out.0 (emit index out.1).0 rest) rest kept
      (apply_kind-failed (kind evt) c (new_ids n) evt ∙ rw e refl)
      (λ fine. stream_from-Agree new_ids (suc n) rest names.1 kept fine)

no_calls :
    {naming : String → String}
    → Mirrors naming new_collector [] (receive nothing (chunk role_delta none))
no_calls = record {
  same_text = refl;
  same_calls = refl;
  same_order = refl;
  same_index = refl;
  own_ids = tt;
  named = tt;
  fresh = tt;
  unfinished = refl;
}

-- What a client reads from the stream is what the collector holds after the events up to the one that
-- ends it, if no call changes its name: the text, the calls, each at its index with its id, name and
-- arguments, and the reason, which is missing after a failure. The collector's calls have their keys as
-- ids and no key twice.
pub stream_chat_completion-Agree :
    (naming : String → String) (new_ids : ℕ → String) (evts : List Json)
    → AllNamed naming new_ids 0 evts
    → Agree
        (collected new_ids (until_end evts))
        (receive_all nothing (stream_chat_completion new_ids evts))
unfolding stream_chat_completion receive_all
stream_chat_completion-Agree naming new_ids evts names =
    stream_from-Agree new_ids 0 {naming = naming} evts names no_calls refl

-- A key that stands nowhere in `m` does not matter to the calls of `m`.
tool_calls_of-cons :
    (e : String × ToolAcc) (m later : List (String × ToolAcc))
    → lookup e.0 later ≡ none
    → tool_calls_of (e ∷ m) (keys later) ≡ tool_calls_of m (keys later)
unfolding tool_calls_of lookup
tool_calls_of-cons e m [] h = refl
tool_calls_of-cons e m (x ∷ later) h = elim (Bool-cases (str_eq x.0 e.0)) [
  | inl same ↦ absurd (ground (arith, rw same at h))
  | inr other ↦
      let apart : str_eq e.0 x.0 ≡ false = ground (arith, eq_iff e.0 x.0, eq_refl x.0) in
      rw apart (
        ap (λ calls. call_of (lookup x.0 m) ++ calls)
          (tool_calls_of-cons e m later (rw other at h)))
]

tool_calls_of-view :
    (m : List (String × ToolAcc))
    → All (λ e. e.1.id ≡ e.0) m
    → Fresh m
    → tool_calls_of m (keys m) ≡ map filled (view m)
unfolding tool_calls_of lookup
tool_calls_of-view [] own fresh = refl
tool_calls_of-view (e ∷ m) own fresh = rw (eq_refl e.0) (
    ap
      (λ id.
        filled (record { id = id; name = e.1.name; arguments = e.1.args })
        ∷ tool_calls_of (e ∷ m) (keys m))
      own.0
    ∙ ap (◌∷◌ (filled (told e)))
        (tool_calls_of-cons e m m fresh.0 ∙ tool_calls_of-view m own.1 fresh.1))

completion_of-Agree :
    {c : Collector} {r : Received} (m : Completion)
    → Agree c r
    → completion_of c ≡ some m
    → (m.content ≡ (if str_eq r.text "" then none else some r.text))
      × (m.tool_calls ≡ map filled r.calls)
      × (r.finish ≡ some m.finish_reason)
unfolding completion_of
completion_of-Agree {c} {r} m agree h = elim (Bool-cases (is_unusable c)) [
  | inl unusable ↦ absurd (ground (arith, rw unusable at h))
  | inr usable ↦
      let fine : c.failed ≡ false = ground (arith, usable) in
      let same = some-injective _ m (rw usable at h) in
      (
        ap (λ x. x.content) (sym same)
            ∙ ap (λ t. if str_eq t "" then none else some t) (sym agree.same_text),
        ap (λ x. x.tool_calls) (sym same)
            ∙ ap (tool_calls_of c.tools) agree.same_order
            ∙ tool_calls_of-view c.tools agree.own_ids agree.fresh
            ∙ ap (map filled) (sym agree.same_calls),
        agree.same_finish ∙ rw fine refl ∙ ap (λ x. some x.finish_reason) same,
      )
]

-- For events of which none follows the one that ends them, and in which no call changes its name: a
-- completion that is answered at once tells what the stream of the same events tells its client: the
-- text (none if it is empty), the calls, each at its index with its id, name and arguments (an empty
-- argument text as `{}`), and the reason.
pub aggregate_chat_completion-streamed :
    (naming : String → String) (new_ids : ℕ → String) (evts : List Json) (m : Completion)
    → AllNamed naming new_ids 0 evts
    → until_end evts ≡ evts
    → aggregate_chat_completion new_ids evts ≡ some m
    → let r = receive_all nothing (stream_chat_completion new_ids evts) in
      (m.content ≡ (if str_eq r.text "" then none else some r.text))
      × (m.tool_calls ≡ map filled r.calls)
      × (r.finish ≡ some m.finish_reason)
unfolding aggregate_chat_completion completion_of
aggregate_chat_completion-streamed naming new_ids evts m names whole h =
    completion_of-Agree m
      (subst
        (λ es.
          Agree (collected new_ids es) (receive_all nothing (stream_chat_completion new_ids evts)))
        whole (stream_chat_completion-Agree naming new_ids evts names))
      h
