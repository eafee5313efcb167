-- ===== src/Codex/Backend.antt =====
-- internal/provider/codex/codex.go: what the provider makes of a request for one account, and the Images
-- API. The backend's answers are arguments: a failure, a status that is not a success, or the decoded
-- events of a success. `relay.WithAccountRetry` around an attempt is modelled in Relay.antt.
pub mod Requests
use apiforge.Base.{
  ℕ, zero, suc, leb, String, Bool, true, false, not, ◌&&◌, ◌||◌, Option, none, some, List, [], ◌∷◌,
  ◌++◌, if◌then◌else◌, str_eq, ℤ, pos, negsuc, is_pos, pos_part,
}
use apiforge.Base.Text.{text_append, has_prefix}
use apiforge.Json.{Json, null, bool, text, Fields, get_in, get, is_object, str, delete_all, put_in}
use apiforge.Chat.{Frame, Completion}
use apiforge.Server.Images.{ImageRequest}
use apiforge.Codex.{ChatRequest, CodexBody, openai_to_codex}
use apiforge.Codex.Stream.{stream_chat_completion, aggregate_chat_completion}
use apiforge.Codex.Images.{
  ImageBody, build_image_gen_body, build_image_edit_body, CollectedImage, collect_image,
  ImagesResponse, to_images_response,
}

abbrev pub default_models : List String
default_models = "gpt-5.5" ∷ "gpt-5.4" ∷ "gpt-5.4-mini" ∷ "gpt-image-2" ∷ "gpt-image-1" ∷ []

abbrev pub max_images : ℕ
max_images = 4

unfoldable pub owns_model : String → Bool
owns_model model =
    has_prefix model "gpt-"
    || has_prefix model "o3"
    || has_prefix model "o4"
    || has_prefix model "codex"

abbrev pub fingerprint_fields : List String
fingerprint_fields = "metadata" ∷ "user" ∷ "safety_identifier" ∷ []

abbrev pub strip_fingerprint : Fields → Fields
strip_fingerprint body = delete_all body fingerprint_fields

-- What the upstream answers to one request.
pub data Upstream : Type 0 where
  unreachable : String → Upstream
  refused : ℕ → Upstream
  streamed : List Json → Upstream

-- What an attempt gives to the retry layer.
pub data Attempted (A : Type 0) : Type 0 where
  failed : String → Attempted A
  passed_on : ℕ → Attempted A
  synthesized : ℕ → String → Attempted A
  answered : A → Attempted A

-- The chat answer of a login account: chunks, or one completion.
pub data ChatAnswer : Type 0 where
  chunks : List Frame → ChatAnswer
  whole : Completion → ChatAnswer

unfoldable pub chat_answer : Bool → (ℕ → String) → List Json → Attempted ChatAnswer
chat_answer true new_ids evts = answered (chunks (stream_chat_completion new_ids evts))
chat_answer false new_ids evts = elim (aggregate_chat_completion new_ids evts) [
  | none ↦ synthesized 502 "codex: upstream returned no completion"
  | some m ↦ answered (whole m)
]

-- The callback of `ChatCompletion` for a login account; `fetch` is `codexFetch`.
unfoldable pub chat_completion :
    (CodexBody → Upstream) → ChatRequest → String → (ℕ → String) → Attempted ChatAnswer
unfolding chat_answer
chat_completion fetch req session_id new_ids = elim (fetch (openai_to_codex req session_id)) [
  | unreachable err ↦ failed err
  | refused status ↦ passed_on status
  | streamed evts ↦ chat_answer req.stream new_ids evts
]

-- The body of the native Responses API.
unfoldable pub responses_body : Fields → String → Fields
responses_body raw session_id =
    put_in (put_in (put_in (strip_fingerprint raw) "store" (bool false)) "stream" (bool true))
      "prompt_cache_key" (text session_id)

-- The variables of `AggregateResponses`, and the fields of its answer that depend on the stream.
pub record Responses : Type 0 where
  pub text : String
  pub id : String
  pub usage : Json

unfoldable pub on_response_event : Responses → Json → Responses
on_response_event r evt =
    let type = str (get evt "type") in
    let response = get evt "response" in
    if str_eq type "response.output_text.delta"
    then record r { text = text_append r.text (str (get evt "delta")) }
    else if str_eq type "response.completed" && is_object response
    then record r {
      id = if str_eq (str (get response "id")) "" then r.id else str (get response "id");
      usage = get response "usage";
    }
    else r

unfoldable pub fold_responses : Responses → List Json → Responses
unfolding on_response_event
fold_responses r [] = r
fold_responses r (evt ∷ rest) = fold_responses (on_response_event r evt) rest

unfoldable pub aggregate_responses : String → List Json → Responses
unfolding fold_responses
aggregate_responses new_id evts =
    let r = fold_responses (record { text = ""; id = ""; usage = null }) evts in
    record r { id = if str_eq r.id "" then new_id else r.id }

unfoldable pub clamp_n : ℤ → ℕ
clamp_n n = if is_pos n then (if leb (pos_part n) max_images then pos_part n else max_images) else 1

-- The body for one image, by whether there are images to edit.
unfoldable pub image_body : ImageRequest → String → ImageBody
image_body req session_id = elim req.images [
  | [] ↦ build_image_gen_body req session_id
  | img ∷ rest ↦ build_image_edit_body req session_id
]

unfoldable pub image_answer : Option CollectedImage × Bool → Attempted CollectedImage
image_answer (some img, completed) = answered img
image_answer (none, true) = synthesized 422 "codex: no image (refused or empty)"
image_answer (none, false) = synthesized 502 "codex: image stream truncated"

-- The callback of `oneImage` for a login account.
unfoldable pub image_attempt :
    (ImageBody → Upstream) → ImageRequest → String → Attempted CollectedImage
unfolding image_body image_answer
image_attempt fetch req session_id = elim (fetch (image_body req session_id)) [
  | unreachable err ↦ failed err
  | refused status ↦ passed_on status
  | streamed evts ↦ image_answer (collect_image evts)
]

-- The images of the requests `i`, …, `i + n - 1` that gave one; each runs on its own and writes its own
-- place.
unfoldable pub gather : (ℕ → Option CollectedImage) → ℕ → ℕ → List CollectedImage
gather one_image i zero = []
gather one_image i (suc n) =
    let rest = gather one_image (suc i) n in
    elim (one_image i) [ none ↦ rest | some img ↦ img ∷ rest ]

unfoldable pub images : (ℕ → Option CollectedImage) → ImageRequest → Attempted ImagesResponse
unfolding gather clamp_n
images one_image req = elim (gather one_image 0 (clamp_n req.n)) [
  | [] ↦ synthesized 502 "The backend did not return an image."
  | img ∷ rest ↦ answered (to_images_response (img ∷ rest))
]
