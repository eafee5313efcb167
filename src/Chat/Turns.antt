-- ===== src/Chat/Turns.antt =====
-- The messages that a translation collects: consecutive ones of a role become one, as `pushMerged` of
-- internal/provider/claude/translate.go and the closure `push` of
-- internal/provider/gemini/translate.go do it.
use apiforge.Base.{
  ◌≡◌, ◌≢◌, refl, ◌∙◌, ap, sym, inl, inr, String, List, [], ◌∷◌, ◌++◌, append-nil, append_assoc,
  concat_map, map, if◌then◌else◌, str_eq, eq_iff, Bool-cases, arith,
}

pub record Turn (B : Type 0) : Type 0 where
  pub role : String
  pub content : List B

module _ {B : Type 0} where
  -- The last message takes the content if it has the role; else a new one does.
  unfoldable pub onto_last : List (Turn B) → String → List B → List (Turn B)
  onto_last [] role content = record { role = role; content = content } ∷ []
  onto_last (m ∷ []) role content =
      if str_eq m.role role
      then record m { content = m.content ++ content } ∷ []
      else m ∷ record { role = role; content = content } ∷ []
  onto_last (m ∷ m' ∷ rest) role content = m ∷ onto_last (m' ∷ rest) role content

  -- Two messages in a row have different roles.
  abbrev pub Alternates : List (Turn B) → Type 0
  Alternates [] = Unit
  Alternates (m ∷ []) = Unit
  Alternates (m ∷ m' ∷ rest) = (m.role ≢ m'.role) × Alternates (m' ∷ rest)

  -- The blocks with the role that says them, over all messages.
  abbrev pub said_by : String → List B → List (String × B)
  said_by role blocks = map (λ b. (role, b)) blocks

  abbrev pub said : List (Turn B) → List (String × B)
  said messages = concat_map (λ m. said_by m.role m.content) messages

  said_by-append :
      (role : String) (bs cs : List B)
      → said_by role (bs ++ cs) ≡ said_by role bs ++ said_by role cs
  said_by-append role [] cs = refl
  said_by-append role (b ∷ bs) cs = ap (◌∷◌ (role, b)) (said_by-append role bs cs)

  pub onto_last-said :
      (messages : List (Turn B)) (role : String) (content : List B)
      → said (onto_last messages role content) ≡ said messages ++ said_by role content
  unfolding onto_last
  onto_last-said [] role content = append-nil (said_by role content)
  onto_last-said (m ∷ []) role content = elim (Bool-cases (str_eq m.role role)) [
    | inl same ↦ rw same (
        append-nil (said_by m.role (m.content ++ content))
        ∙ said_by-append m.role m.content content
        ∙ ap (λ r. said_by m.role m.content ++ said_by r content) ((eq_iff m.role role).0 same)
        ∙ ap (λ xs. xs ++ said_by role content) (sym (append-nil (said_by m.role m.content))))
    | inr differs ↦ rw differs (
        ap (λ xs. said_by m.role m.content ++ xs) (append-nil (said_by role content))
        ∙ ap (λ xs. xs ++ said_by role content) (sym (append-nil (said_by m.role m.content))))
  ]
  onto_last-said (m ∷ m' ∷ rest) role content =
      ap (λ xs. said_by m.role m.content ++ xs) (onto_last-said (m' ∷ rest) role content)
      ∙ sym (append_assoc (said_by m.role m.content) (said (m' ∷ rest)) (said_by role content))

  -- The first role stays, so the messages before it may stand.
  pub onto_last-Alternates :
      (messages : List (Turn B)) (role : String) (content : List B)
      → Alternates messages
      → Alternates (onto_last messages role content)
  unfolding onto_last
  onto_last-Alternates [] role content h = tt
  onto_last-Alternates (m ∷ []) role content h = elim (Bool-cases (str_eq m.role role)) [
    | inl same ↦ rw same tt
    | inr differs ↦ rw differs (λ e. absurd (ground (arith, eq_iff m.role role)), tt)
  ]
  onto_last-Alternates (m ∷ m' ∷ []) role content h = elim (Bool-cases (str_eq m'.role role)) [
    | inl same ↦ rw same h
    | inr differs ↦ rw differs (h.0, (λ e. absurd (ground (arith, eq_iff m'.role role)), tt))
  ]
  onto_last-Alternates (m ∷ m' ∷ m'' ∷ rest) role content h =
      (h.0, onto_last-Alternates (m' ∷ m'' ∷ rest) role content h.1)
