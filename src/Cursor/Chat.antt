-- ===== src/Cursor/Chat.antt =====
-- internal/provider/cursor/cursor.go: `buildMessages` and both answers, on the texts that
-- `stream_deltas` finds. `utf8` is the bytes of a text, `text_of` their text; `new_id` gives the id of
-- the n-th message.
use apiforge.Base.{
  ℕ, suc, ◌+◌, ◌≡◌, ◌∙◌, ap, inl, inr, String, Bool, true, false, not, ◌&&◌, ◌||◌, Option, none,
  some, List, [], ◌∷◌, ◌++◌, map, if◌then◌else◌, str_eq, All, Bool-cases, arith,
}
use apiforge.Base.Text.{Bytes, text_append}
use apiforge.Chat.{role_delta, empty_delta, content_delta, Frame, chunk, done}
use apiforge.Cursor.{CursorMessage}
use apiforge.Grok.{Message, extract_text, joined, all_text}

abbrev pub is_system : Message → Bool
is_system m = str_eq m.role "system" || str_eq m.role "developer"

unfoldable pub system_parts : List Message → List String
system_parts [] = []
system_parts (m ∷ rest) =
    let parts = system_parts rest in
    if is_system m && not (str_eq (extract_text m.content) "")
    then extract_text m.content ∷ parts
    else parts

abbrev pub cursor_role : Message → String
cursor_role m = if str_eq m.role "assistant" then "assistant" else "user"

module _ (utf8 : String → Bytes) (new_id : ℕ → Bytes) where
  abbrev pub said : ℕ → Message → String → CursorMessage
  said n m text = record { text = utf8 text; role = cursor_role m; bubble_id = new_id n }

  -- The loop after the system's text was put in, or when there is none.
  unfoldable pub plain_turns : ℕ → List Message → List CursorMessage
  plain_turns n [] = []
  plain_turns n (m ∷ rest) =
      if is_system m
      then plain_turns n rest
      else said n m (extract_text m.content) ∷ plain_turns (suc n) rest

  -- The loop before: the first user's turn takes the text.
  unfoldable pub turns : String → ℕ → List Message → List CursorMessage
  unfolding plain_turns
  turns system_text n [] = []
  turns system_text n (m ∷ rest) =
      if is_system m
      then turns system_text n rest
      else if str_eq m.role "assistant"
      then said n m (extract_text m.content) ∷ turns system_text (suc n) rest
      else said n m (text_append system_text (text_append "\n\n" (extract_text m.content)))
        ∷ plain_turns (suc n) rest

  unfoldable pub build_messages : List Message → List CursorMessage
  unfolding turns system_parts joined
  build_messages msgs =
      let system_text = joined (system_parts msgs) in
      if str_eq system_text "" then plain_turns 0 msgs else turns system_text 0 msgs

abbrev pub stream_to_openai : List String → List Frame
stream_to_openai deltas =
    chunk role_delta none ∷ map (λ s. chunk (content_delta s) none) deltas
    ++ chunk empty_delta (some "stop") ∷ done ∷ []

abbrev pub aggregate : List String → Option String
aggregate deltas = let t = all_text deltas in if str_eq t "" then none else some t

-- Turns of the assistant, and none of the system or the user.
abbrev pub NoUser : Message → Type 0
NoUser m = (is_system m || str_eq m.role "assistant") ≡ true

-- How many turns the messages give.
abbrev pub turn_count : List Message → ℕ
turn_count [] = 0
turn_count (m ∷ rest) = if is_system m then turn_count rest else suc (turn_count rest)

module _ (utf8 : String → Bytes) (new_id : ℕ → Bytes) where
  -- The system's text goes to the first user's turn and to no other; the turns keep their order.
  pub turns-first_user :
      (system_text : String) (n : ℕ) (before : List Message) (m : Message) (later : List Message)
      → All NoUser before
      → is_system m ≡ false
      → str_eq m.role "assistant" ≡ false
      → turns utf8 new_id system_text n (before ++ m ∷ later)
        ≡ plain_turns utf8 new_id n before
          ++ said utf8 new_id
              (n + turn_count before)
              m
              (text_append system_text (text_append "\n\n" (extract_text m.content)))
            ∷ plain_turns utf8 new_id (suc (n + turn_count before)) later
  unfolding turns plain_turns
  turns-first_user system_text n [] m later h user here =
      let given : Bytes =
        utf8 (text_append system_text (text_append "\n\n" (extract_text m.content))) in
      let turn : ℕ → CursorMessage =
        λ k. record { text = given; role = "user"; bubble_id = new_id k } in
      let first : n ≡ n + 0 = omega arith in
      rw (user, here, turns) (ap (λ k. turn k ∷ plain_turns utf8 new_id (suc k) later) first)
  turns-first_user system_text n (x ∷ before) m later (no_user, h) user here =
      elim (Bool-cases (is_system x)) [
        | inl system ↦
            rw (system, turns, plain_turns)
              (turns-first_user system_text n before m later h user here)
        | inr spoken ↦
            let assistant : str_eq x.role "assistant" ≡ true = ground (arith, spoken, no_user) in
            let given = text_append system_text (text_append "\n\n" (extract_text m.content)) in
            let next : suc n + turn_count before ≡ n + suc (turn_count before) = omega arith in
            rw (spoken, assistant, turns, plain_turns)
              (ap
                (λ xs.
                  record {
                    text = utf8 (extract_text x.content);
                    role = "assistant";
                    bubble_id = new_id n;
                  }
                  ∷ xs)
                (turns-first_user system_text (suc n) before m later h user here
                  ∙ ap
                      (λ k.
                        plain_turns utf8 new_id (suc n) before
                        ++ said utf8 new_id k m given ∷ plain_turns utf8 new_id (suc k) later)
                      next))
      ]
