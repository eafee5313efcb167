-- ===== src/Base/Dict.antt =====
-- A Go map with string keys, as an association list with at most one entry for a key.
use Prim.Native.String.{String}
use mathlib.Core.Path.{◌≡◌, refl, subst}
use mathlib.Core.Logic.{◌≢◌, inl, inr}
use mathlib.Core.Bool.{true, false}
use mathlib.Core.List.{List, [], ◌∷◌}
use mathlib.Core.Option.{Option, none, some}
use native.Mathlib.Omega.{arith}
use text.Mathlib.Text.{◌==◌ as str_eq}
use text.Mathlib.TextEquality.{eq_iff}
use text.Mathlib.TextPositions.{eq_refl}
use apiforge.Base.Tests.{if◌then◌else◌, Bool-cases}
use apiforge.Base.Lists.{All}

module _ {ℓ} {V : Type ℓ} where
  unfoldable pub lookup : String → List (String × V) → Option V
  lookup key [] = none
  lookup key (entry ∷ rest) = if str_eq entry.0 key then some entry.1 else lookup key rest

  -- An entry of the key is replaced where it stands, a new one goes to the end.
  unfoldable pub insert : String → V → List (String × V) → List (String × V)
  insert key value [] = (key, value) ∷ []
  insert key value (entry ∷ rest) =
      if str_eq entry.0 key then (key, value) ∷ rest else entry ∷ insert key value rest

  -- Of an entry that is not the key's, another search sees no change.
  lookup-kept :
      (key other : String) (entry : String × V) (rest later : List (String × V)) (value : V)
      → str_eq entry.0 key ≡ false
      → lookup other later ≡ (if str_eq key other then some value else lookup other rest)
      → lookup other (entry ∷ later)
        ≡ (if str_eq key other then some value else lookup other (entry ∷ rest))
  unfolding lookup
  lookup-kept key other entry rest later value e h =
      ground (arith, eq_iff entry.0 key, eq_iff entry.0 other, eq_iff key other)

  lookup-replaced :
      (key other : String) (entry : String × V) (rest : List (String × V)) (value : V)
      → str_eq entry.0 key ≡ true
      → lookup other ((key, value) ∷ rest)
        ≡ (if str_eq key other then some value else lookup other (entry ∷ rest))
  unfolding lookup
  lookup-replaced key other entry rest value e =
      ground (arith, eq_iff entry.0 key, eq_iff entry.0 other, eq_iff key other)

  pub lookup-insert :
      (key other : String) (value : V) (entries : List (String × V))
      → lookup other (insert key value entries)
        ≡ (if str_eq key other then some value else lookup other entries)
  unfolding insert lookup
  lookup-insert key other value [] = refl
  lookup-insert key other value (entry ∷ rest) =
      let later = lookup-insert key other value rest in
      elim (Bool-cases (str_eq entry.0 key)) [
        | inl e ↦ rw e (lookup-replaced key other entry rest value e)
        | inr e ↦ rw e (lookup-kept key other entry rest (insert key value rest) value e later)
      ]

  pub lookup-insert_self :
      (key : String) (value : V) (entries : List (String × V))
      → lookup key (insert key value entries) ≡ some value
  lookup-insert_self key value entries =
      ground (arith, lookup-insert key key value entries, eq_refl key)

  pub lookup-insert-ne_none :
      (k j : String) (v : V) (m : List (String × V))
      → lookup j m ≢ none
      → lookup j (insert k v m) ≢ none
  lookup-insert-ne_none k j v m h =
      rw (lookup-insert k j v m)
        (elim (Bool-cases (str_eq k j)) [ inl e ↦ rw e (λ x. cc) | inr e ↦ rw e h ])

  -- What holds of every entry holds of the entry that is found.
  pub lookup-All {κ} :
      (P : String × V → Type κ) (k : String) (m : List (String × V)) {v : V}
      → All P m
      → lookup k m ≡ some v
      → P (k, v)
  unfolding lookup
  lookup-All P k [] h e = cc
  lookup-All P k ((j, w) ∷ m) h e = elim (Bool-cases (str_eq j k)) [
    | inl same ↦ subst P (ground (arith, eq_iff j k)) h.0
    | inr other ↦ lookup-All P k m h.1 (rw other at e)
  ]

  pub insert-All {κ} :
      (P : String × V → Type κ) (k : String) (v : V) (m : List (String × V))
      → All P m
      → P (k, v)
      → All P (insert k v m)
  unfolding insert
  insert-All P k v [] h p = (p, tt)
  insert-All P k v ((j, w) ∷ m) h p = ground (arith, insert-All P k v m h.1 p)
