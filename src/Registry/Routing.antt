-- ===== src/Registry/Routing.antt =====
-- Which provider a request is routed to, and what initialisation leaves behind.
use apiforge.Base.{
  ◌≡◌, refl, ◌∙◌, ap, inl, inr, String, Bool, true, false, ◌&&◌, Option, none, some, List, [], ◌∷◌,
  ◌++◌, map, arith, str_eq, lookup, lookup-insert, All, Bool-cases,
}
use apiforge.Registry.{
  Provider, Registry, Init, note_reason, init_from, init_all, find_from, find_by_model, by_id_from,
  by_id,
}

-- `p` passes the test, and stands before every other provider of the list that does.
abbrev pub IsFirst : (Provider → Bool) → List Provider → Provider → Type 0
IsFirst test providers p =
    (before : List Provider) × (after : List Provider) × (providers ≡ before ++ p ∷ after)
    × All (λ q. test q ≡ false) before
    × (test p ≡ true)

-- The answer of a search for the first provider that passes a test.
abbrev pub Searches : (Provider → Bool) → List Provider → Option Provider → Type 0
Searches test providers none = All (λ q. test q ≡ false) providers
Searches test providers (some p) = IsFirst test providers p

Searches-cons :
    (test : Provider → Bool) (q : Provider) (rest : List Provider) (o : Option Provider)
    → test q ≡ false
    → Searches test rest o
    → Searches test (q ∷ rest) o
Searches-cons test q rest none e h = (e, h)
Searches-cons test q rest (some p) e (before, after, split, refused, passed) =
    (q ∷ before, after, ap (◌∷◌ q) split, (e, refused), passed)

abbrev pub serves : String → Provider → Bool
serves model p = p.is_ready && p.owns_model model

find_from-Searches :
    (providers : List Provider) (model : String)
    → Searches (serves model) providers (find_from providers model)
unfolding find_from
find_from-Searches [] model = tt
find_from-Searches (p ∷ rest) model =
    let later = find_from-Searches rest model in
    elim (Bool-cases (serves model p)) [
      | inl e ↦ rw e ([], rest, refl, tt, e)
      | inr e ↦ rw e (Searches-cons (serves model) p rest (find_from rest model) e later)
    ]

-- A request goes to the first ready provider, in the order of registration, that owns its model, and
-- to none exactly when there is no such provider.
pub find_by_model-Searches :
    (r : Registry) (model : String) → Searches (serves model) r.providers (find_by_model r model)
find_by_model-Searches r model = find_from-Searches r.providers model

abbrev pub is_named : String → Provider → Bool
is_named id p = p.is_ready && str_eq p.id id

by_id_from-Searches :
    (providers : List Provider) (id : String)
    → Searches (is_named id) providers (by_id_from providers id)
unfolding by_id_from
by_id_from-Searches [] id = tt
by_id_from-Searches (p ∷ rest) id =
    let later = by_id_from-Searches rest id in
    elim (Bool-cases (is_named id p)) [
      | inl e ↦ rw e ([], rest, refl, tt, e)
      | inr e ↦ rw e (Searches-cons (is_named id) p rest (by_id_from rest id) e later)
    ]

-- The administrator's calls address the first ready provider of the given id.
pub by_id-Searches : (r : Registry) (id : String) → Searches (is_named id) r.providers (by_id r id)
by_id-Searches r id = by_id_from-Searches r.providers id

init_from-providers :
    (init : Init) (providers : List Provider) (reasons : List (String × String))
    → (init_from init providers reasons).providers ≡ map (λ p. (init p).0) providers
unfolding init_from
init_from-providers init [] reasons = refl
init_from-providers init (p ∷ rest) reasons =
    ap (◌∷◌ (init p).0)
      (init_from-providers init rest (note_reason (init p).0.id (init p).1 reasons))

abbrev newer : Bool → Option String → Option String → Option String
newer true (some message) known = some message
newer true none known = known
newer false failure known = known

-- The reason that the last failure among the providers of this id left, or the one known before.
abbrev pub last_reason : Init → String → List Provider → Option String → Option String
last_reason init id [] known = known
last_reason init id (p ∷ rest) known =
    last_reason init id rest (newer (str_eq (init p).0.id id) (init p).1 known)

lookup-note_reason :
    (own id : String) (failure : Option String) (reasons : List (String × String))
    → lookup id (note_reason own failure reasons)
      ≡ newer (str_eq own id) failure (lookup id reasons)
unfolding note_reason
lookup-note_reason own id none reasons = ground arith
lookup-note_reason own id (some message) reasons =
    ground (arith, lookup-insert own id message reasons)

init_from-reasons :
    (init : Init) (id : String) (providers : List Provider) (reasons : List (String × String))
    → lookup id (init_from init providers reasons).reasons
      ≡ last_reason init id providers (lookup id reasons)
unfolding init_from
init_from-reasons init id [] reasons = refl
init_from-reasons init id (p ∷ rest) reasons =
    init_from-reasons init id rest (note_reason (init p).0.id (init p).1 reasons)
    ∙ ap (last_reason init id rest) (lookup-note_reason (init p).0.id id (init p).1 reasons)

-- A provider that fails to initialise hinders no other: every provider is initialised, in order and
-- once, and for each id the registry keeps the text of the last failure under it, if there was one.
pub init_all-isolates :
    (init : Init) (r : Registry) (id : String)
    → ((init_all init r).providers ≡ map (λ p. (init p).0) r.providers)
      × (lookup id (init_all init r).reasons
          ≡ last_reason init id r.providers (lookup id r.reasons))
unfolding init_all
init_all-isolates init r id = (
  init_from-providers init r.providers r.reasons,
  init_from-reasons init id r.providers r.reasons,
)
