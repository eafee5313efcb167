-- ===== src/Registry.antt =====
-- internal/registry/registry.go and the provider contract of internal/types/types.go. A provider is
-- what the registry sees of one: its id, whether it is ready, the models that it lists and the test
-- for the models that it owns. `Init` is the argument `init`, which may change the provider's state.
pub mod Routing
pub mod Listing
mod Tests
use apiforge.Base.{
  ℕ, String, Bool, true, false, ◌&&◌, Option, none, some, List, [], ◌∷◌, ◌++◌, if◌then◌else◌,
  str_eq, lookup, insert,
}

-- Capabilities are strings, as in the source.
abbrev pub cap_responses : String
cap_responses = "responses"

abbrev pub cap_images : String
cap_images = "images"

abbrev pub cap_anthropic : String
cap_anthropic = "anthropic"

pub record ModelObject : Type 0 where
  pub id : String
  pub object : String
  pub created : ℕ
  pub owned_by : String

-- `ModelObjects`, at the time `now` in seconds.
unfoldable pub model_objects : List String → String → ℕ → List ModelObject
model_objects [] owned_by now = []
model_objects (id ∷ ids) owned_by now =
    record { id = id; object = "model"; created = now; owned_by = owned_by }
    ∷ model_objects ids owned_by now

pub record Provider : Type 0 where
  pub id : String
  pub capabilities : List String
  pub is_ready : Bool
  pub models : List ModelObject
  pub owns_model : String → Bool

unfoldable pub has_capability_in : List String → String → Bool
has_capability_in [] c = false
has_capability_in (x ∷ rest) c = if str_eq x c then true else has_capability_in rest c

abbrev pub has_capability : Provider → String → Bool
has_capability p c = has_capability_in p.capabilities c

pub record Diag : Type 0 where
  pub id : String
  pub ready : Bool
  pub models : List ModelObject
  pub reason : String

pub record Registry : Type 0 where
  pub providers : List Provider
  pub reasons : List (String × String)

abbrev pub empty : Registry
empty = record { providers = []; reasons = [] }

unfoldable pub register : Registry → Provider → Registry
register r p = record r { providers = r.providers ++ p ∷ [] }

-- `Init` of one provider: the provider afterwards, and the error's text if it failed.
abbrev pub Init : Type 0
Init = Provider → Provider × Option String

unfoldable pub note_reason :
    String → Option String → List (String × String) → List (String × String)
note_reason id none reasons = reasons
note_reason id (some message) reasons = insert id message reasons

unfoldable pub init_from : Init → List Provider → List (String × String) → Registry
init_from init [] reasons = record { providers = []; reasons = reasons }
init_from init (p ∷ rest) reasons =
    let (q, failure) = init p in
    let later = init_from init rest (note_reason q.id failure reasons) in
    record { providers = q ∷ later.providers; reasons = later.reasons }

unfoldable pub init_all : Init → Registry → Registry
unfolding init_from note_reason
init_all init r = init_from init r.providers r.reasons

unfoldable pub ready_from : List Provider → List Provider
ready_from [] = []
ready_from (p ∷ rest) = if p.is_ready then p ∷ ready_from rest else ready_from rest

abbrev pub ready : Registry → List Provider
ready r = ready_from r.providers

unfoldable pub find_from : List Provider → String → Option Provider
find_from [] model = none
find_from (p ∷ rest) model =
    if p.is_ready && p.owns_model model then some p else find_from rest model

abbrev pub find_by_model : Registry → String → Option Provider
find_by_model r model = find_from r.providers model

unfoldable pub by_id_from : List Provider → String → Option Provider
by_id_from [] id = none
by_id_from (p ∷ rest) id = if p.is_ready && str_eq p.id id then some p else by_id_from rest id

abbrev pub by_id : Registry → String → Option Provider
by_id r id = by_id_from r.providers id

unfoldable pub seen : String → List String → Bool
seen id [] = false
seen id (x ∷ xs) = if str_eq x id then true else seen id xs

-- The inner loop of `Models`: the models of one provider that were not seen, and the ids seen then.
unfoldable pub add_models : List ModelObject → List String → List ModelObject × List String
add_models [] ids = ([], ids)
add_models (m ∷ rest) ids =
    let (more, ids') = add_models rest (if seen m.id ids then ids else m.id ∷ ids) in
    (if seen m.id ids then more else m ∷ more, ids')

unfoldable pub models_from : List Provider → List String → List ModelObject
models_from [] ids = []
models_from (p ∷ rest) ids =
    let fresh = add_models (if p.is_ready then p.models else []) ids in
    fresh.0 ++ models_from rest fresh.1

abbrev pub models : Registry → List ModelObject
models r = models_from r.providers []

-- `r.reasons[id]`, the empty text if there is none.
unfoldable pub reason_of : Option String → String
reason_of none = ""
reason_of (some message) = message

unfoldable pub diag_of : Registry → Provider → Diag
diag_of r p =
    if p.is_ready
    then record { id = p.id; ready = true; models = p.models; reason = "" }
    else record {
      id = p.id;
      ready = false;
      models = [];
      reason = reason_of (lookup p.id r.reasons);
    }

unfoldable pub diagnostics_from : Registry → List Provider → List Diag
unfolding diag_of reason_of
diagnostics_from r [] = []
diagnostics_from r (p ∷ rest) = diag_of r p ∷ diagnostics_from r rest

abbrev pub diagnostics : Registry → List Diag
diagnostics r = diagnostics_from r r.providers
