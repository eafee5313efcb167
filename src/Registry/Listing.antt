-- ===== src/Registry/Listing.antt =====
-- The model list of all ready providers: no id twice, none left out, the first owner's entry.
use apiforge.Base.{
  ℕ, ◌+◌, ◌≡◌, refl, String, Bool, true, false, ◌||◌, Option, none, some, List, [], ◌∷◌, ◌++◌,
  arith, if◌then◌else◌, str_eq, eq_iff,
}
use apiforge.Registry.{ModelObject, Provider, Registry, seen, add_models, models_from, models}

-- How often an id stands in a model list.
abbrev pub count_id : String → List ModelObject → ℕ
count_id id [] = 0
count_id id (m ∷ rest) = (if str_eq m.id id then 1 else 0) + count_id id rest

-- The first entry of an id.
abbrev pub entry_of : String → List ModelObject → Option ModelObject
entry_of id [] = none
entry_of id (m ∷ rest) = if str_eq m.id id then some m else entry_of id rest

abbrev first_of_two : Option ModelObject → Option ModelObject → Option ModelObject
first_of_two none o = o
first_of_two (some m) o = some m

-- The models of the ready providers, one provider after another.
abbrev pub listed : List Provider → List ModelObject
listed [] = []
listed (p ∷ rest) = (if p.is_ready then p.models else []) ++ listed rest

abbrev pub is_some : Option ModelObject → Bool
is_some none = false
is_some (some m) = true

count_id-append :
    (id : String) (xs ys : List ModelObject)
    → count_id id (xs ++ ys) ≡ count_id id xs + count_id id ys
count_id-append id [] ys = omega arith
count_id-append id (x ∷ xs) ys = omega (arith, count_id-append id xs ys)

entry_of-append :
    (id : String) (xs ys : List ModelObject)
    → entry_of id (xs ++ ys) ≡ first_of_two (entry_of id xs) (entry_of id ys)
entry_of-append id [] ys = refl
entry_of-append id (x ∷ xs) ys = ground (arith, entry_of-append id xs ys)

-- One provider's models: an id that was seen is left out, any other is entered once.
add_models-entries :
    (id : String) (ms : List ModelObject) (ids : List String)
    → let r = add_models ms ids in
      (count_id id r.0 ≡ (if seen id ids then 0 else if is_some (entry_of id ms) then 1 else 0))
      × (entry_of id r.0 ≡ (if seen id ids then none else entry_of id ms))
      × (seen id r.1 ≡ (seen id ids || is_some (entry_of id ms)))
unfolding add_models seen
add_models-entries id [] ids = ground arith
add_models-entries id (m ∷ ms) ids =
    ground
      (arith, eq_iff m.id id, add_models-entries id ms (if seen m.id ids then ids else m.id ∷ ids))

models_from-entries :
    (id : String) (ps : List Provider) (ids : List String)
    → (count_id id (models_from ps ids)
        ≡ (if seen id ids then 0 else if is_some (entry_of id (listed ps)) then 1 else 0))
      × (entry_of id (models_from ps ids) ≡ (if seen id ids then none else entry_of id (listed ps)))
unfolding models_from
models_from-entries id [] ids = ground arith
models_from-entries id (p ∷ ps) ids =
    let own : List ModelObject = if p.is_ready then p.models else [] in
    let fresh = add_models own ids in
    ground (
      arith,
      add_models-entries id own ids,
      models_from-entries id ps fresh.1,
      count_id-append id fresh.0 (models_from ps fresh.1),
      entry_of-append id fresh.0 (models_from ps fresh.1),
      entry_of-append id own (listed ps),
    )

-- `/v1/models` lists an id once if some ready provider lists it and otherwise not, with the entry of
-- the first ready provider, in the order of registration, that lists it.
pub models-entries :
    (r : Registry) (id : String)
    → (count_id id (models r) ≡ (if is_some (entry_of id (listed r.providers)) then 1 else 0))
      × (entry_of id (models r) ≡ entry_of id (listed r.providers))
unfolding seen
models-entries r id = models_from-entries id r.providers []
