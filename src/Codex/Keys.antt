-- ===== src/Codex/Keys.antt =====
-- The maps of the collector and of the stream, by the keys that stand in them.
use mathlib.Core.Option.{some-injective}
use apiforge.Base.{
  ℕ, zero, suc, ◌+◌, ◌≡◌, refl, ◌∙◌, ap, sym, inl, inr, String, none, some, List, [], ◌∷◌, ◌++◌,
  map, str_eq, eq_iff, eq_refl, lookup, insert, length, Bool-cases, arith,
}
use apiforge.Base.Text.{text_append}
use apiforge.Chat.{ToolCall}
use apiforge.Chat.Client.{extend_at}
use apiforge.Codex.Collector.{ToolAcc}

module _ {V : Type 0} where
  abbrev pub keys : List (String × V) → List String
  keys m = map (λ e. e.0) m

  -- A new key goes to the end.
  pub insert_new :
      (k : String) (v : V) (m : List (String × V))
      → lookup k m ≡ none
      → insert k v m ≡ m ++ (k, v) ∷ []
  unfolding lookup insert
  insert_new k v [] h = refl
  insert_new k v (e ∷ m) h = elim (Bool-cases (str_eq e.0 k)) [
    | inl same ↦ absurd (ground (arith, rw same at h))
    | inr other ↦ rw other (ap (◌∷◌ e) (insert_new k v m (rw other at h)))
  ]

  pub keys-insert_known :
      (k : String) (v w : V) (m : List (String × V))
      → lookup k m ≡ some v
      → keys (insert k w m) ≡ keys m
  unfolding lookup insert
  keys-insert_known k v w [] h = cc
  keys-insert_known k v w (e ∷ m) h = elim (Bool-cases (str_eq e.0 k)) [
    | inl same ↦ rw same (ap (◌∷◌ k) refl ∙ ap (λ x. x ∷ keys m) (sym ((eq_iff e.0 k).0 same)))
    | inr other ↦ rw other (ap (◌∷◌ e.0) (keys-insert_known k v w m (rw other at h)))
  ]

  pub insert-insert :
      (k : String) (v w : V) (m : List (String × V)) → insert k w (insert k v m) ≡ insert k w m
  unfolding insert
  insert-insert k v w [] = rw (eq_refl k) refl
  insert-insert k v w (e ∷ m) = elim (Bool-cases (str_eq e.0 k)) [
    | inl same ↦ rw same (rw (eq_refl k) refl)
    | inr other ↦ rw other (rw other (ap (◌∷◌ e) (insert-insert k v w m)))
  ]

  pub keys-append : (m m' : List (String × V)) → keys (m ++ m') ≡ keys m ++ keys m'
  keys-append [] m' = refl
  keys-append (e ∷ m) m' = ap (◌∷◌ e.0) (keys-append m m')

-- The tools in the order of their first appearance, counted from `n`.
abbrev pub numbered : ℕ → List String → List (String × ℕ)
numbered n [] = []
numbered n (k ∷ ks) = (k, n) ∷ numbered (suc n) ks

pub length-numbered : (n : ℕ) (ks : List String) → length (numbered n ks) ≡ length ks
length-numbered n [] = refl
length-numbered n (k ∷ ks) = ap suc (length-numbered (suc n) ks)

pub numbered-append :
    (n : ℕ) (ks : List String) (k : String)
    → numbered n (ks ++ k ∷ []) ≡ numbered n ks ++ (k, n + length ks) ∷ []
numbered-append n [] k = ap (λ i. (k, i) ∷ []) (omega arith)
numbered-append n (j ∷ ks) k =
    ap (◌∷◌ (j, n))
      (numbered-append (suc n) ks k ∙ ap (λ i. numbered (suc n) ks ++ (k, i) ∷ []) (omega arith))

pub lookup-numbered_new :
    {V : Type 0} (k : String) (n : ℕ) (m : List (String × V))
    → lookup k m ≡ none
    → lookup k (numbered n (keys m)) ≡ none
unfolding lookup
lookup-numbered_new k n [] h = refl
lookup-numbered_new k n (e ∷ m) h = elim (Bool-cases (str_eq e.0 k)) [
  | inl same ↦ absurd (ground (arith, rw same at h))
  | inr other ↦ rw other (lookup-numbered_new k (suc n) m (rw other at h))
]

-- What a client is to hold of the tools.
abbrev pub told : String × ToolAcc → ToolCall
told (key, acc) = record { id = key; name = acc.name; arguments = acc.args }

abbrev pub view : List (String × ToolAcc) → List ToolCall
view tools = map told tools

pub view-append : (m m' : List (String × ToolAcc)) → view (m ++ m') ≡ view m ++ view m'
view-append [] m' = refl
view-append (e ∷ m) m' = ap (◌∷◌ (told e)) (view-append m m')

-- More arguments for a known key reach its call by the index.
pub view-insert_known :
    (k s : String) (old acc : ToolAcc) (n : ℕ) (tools : List (String × ToolAcc))
    → lookup k tools ≡ some old
    → acc.args ≡ text_append old.args s
    → acc.name ≡ old.name
    → (i : ℕ) × (lookup k (numbered n (keys tools)) ≡ some (n + i))
      × (view (insert k acc tools) ≡ extend_at i s (view tools))
unfolding lookup insert
view-insert_known k s old acc n [] h e e' = cc
view-insert_known k s old acc n (x ∷ tools) h e e' = elim (Bool-cases (str_eq x.0 k)) [
  | inl same ↦
      let name = (eq_iff x.0 k).0 same in
      let found : some x.1 ≡ some old = rw same at h in
      let same_acc : x.1 ≡ old = some-injective x.1 old found in
      rw same (
        zero,
        ap some (omega arith),
        ap (λ j. told (j, acc) ∷ view tools) (sym name)
            ∙ ap (λ a. record { id = x.0; name = acc.name; arguments = a } ∷ view tools)
                (e ∙ ap (λ o. text_append o.args s) (sym same_acc))
            ∙ ap
                (λ a.
                  record { id = x.0; name = a; arguments = text_append x.1.args s } ∷ view tools)
                (e' ∙ ap (λ o. o.name) (sym same_acc)),
      )
  | inr other ↦
      let (i, at, seen) = view-insert_known k s old acc (suc n) tools (rw other at h) e e' in
      rw other (suc i, at ∙ ap some (omega arith), ap (◌∷◌ (told x)) seen)
]
