-- ===== src/Codex/Backend/Requests.antt =====
-- How many images an answer has and where they come from, and what the backend is sent of a native
-- request.
use apiforge.Base.{
  List-cases, ℕ, zero, suc, ◌+◌, ◌≤◌, ◌<◌, ◌≡◌, refl, ◌∙◌, ap, inl, inr, String, true, false, ◌||◌,
  Option, none, some, List, [], ◌∷◌, ◌++◌, map, ℤ, pos, negsuc, if◌then◌else◌, str_eq, Option-cases,
  arith,
}
use apiforge.Json.{
  Json, null, bool, text, Fields, get_in, delete_in, put_in, get_in-delete_in, get_in-put_in,
}
use apiforge.Server.Images.{ImageRequest}
use apiforge.Codex.Images.{CollectedImage, ImageEntry, ImagesResponse, to_images_response}
use apiforge.Codex.Backend.{
  strip_fingerprint, responses_body, clamp_n, Attempted, synthesized, answered, gather, images,
}

-- How many images a number asks for: at least one, at most four.
pub data IsCount : ℤ → ℕ → Type 0 where
  negative : (m : ℕ) → IsCount (negsuc m) 1
  zero_asked : IsCount (pos 0) 1
  asked : (m : ℕ) → 1 ≤ m → m ≤ 4 → IsCount (pos m) m
  too_many : (m : ℕ) → 4 < m → IsCount (pos m) 4

clamp_n-IsCount : (n : ℤ) (count : ℕ) → IsCount n count → clamp_n n ≡ count
unfolding clamp_n
clamp_n-IsCount n count (negative m) = refl
clamp_n-IsCount n count zero_asked = refl
clamp_n-IsCount n count (asked m low high) = ground arith
clamp_n-IsCount n count (too_many m more) = ground arith

-- An image as an entry of `data`; an empty prompt is left out.
abbrev pub shown_as : CollectedImage → ImageEntry
shown_as img = record {
  b64_json = img.b64;
  revised_prompt = if str_eq img.revised_prompt "" then none else some img.revised_prompt;
}

abbrev pub if_any : {A : Type 0} → Option A → List A
if_any none = []
if_any (some x) = x ∷ []

-- The images among the results 0 to n - 1, in order.
unfoldable pub shown : (ℕ → Option CollectedImage) → ℕ → List CollectedImage
shown one_image zero = []
shown one_image (suc n) = shown one_image n ++ if_any (one_image n)

gather-last :
    (one_image : ℕ → Option CollectedImage) (i n : ℕ)
    → gather one_image i (suc n) ≡ gather one_image i n ++ if_any (one_image (i + n))
unfolding gather
gather-last one_image i zero = elim (Option-cases (one_image i)) [
  | inl missing ↦
      let there : one_image (i + 0) ≡ none = ap one_image (omega arith) ∙ missing in
      rw (missing, there, gather) refl
  | inr (img, is) ↦
      let there : one_image (i + 0) ≡ some img = ap one_image (omega arith) ∙ is in
      rw (is, there, gather) refl
]
gather-last one_image i (suc n) =
    let more = gather-last one_image (suc i) n in
    let same : suc i + n ≡ i + suc n = omega arith in
    let place = ap (λ k. if_any (one_image k)) same in
    elim (Option-cases (one_image i)) [
      | inl missing ↦
          rw (missing, gather) (more ∙ ap (λ xs. gather one_image (suc i) n ++ xs) place)
      | inr (img, is) ↦
          rw (is, gather) (ap (◌∷◌ img) (more ∙ ap (λ xs. gather one_image (suc i) n ++ xs) place))
    ]

gather-shown :
    (one_image : ℕ → Option CollectedImage) (n : ℕ) → gather one_image 0 n ≡ shown one_image n
unfolding gather shown
gather-shown one_image zero = refl
gather-shown one_image (suc n) =
    let same : 0 + n ≡ n = omega arith in
    gather-last one_image 0 n
    ∙ ap (λ k. gather one_image 0 n ++ if_any (one_image k)) same
    ∙ ap (λ xs. xs ++ if_any (one_image n)) (gather-shown one_image n)

-- What is answered when these are the images that the requests gave.
abbrev pub IsAnswer : List CollectedImage → Attempted ImagesResponse → Type 0
IsAnswer [] a = a ≡ synthesized 502 "The backend did not return an image."
IsAnswer (img ∷ rest) a =
    (resp : ImagesResponse) × (a ≡ answered resp) × (resp.«data» ≡ map shown_as (img ∷ rest))

-- Where a request asks for `count` images, one to four, as many requests are made: the entries of the
-- answer are exactly the images that they gave, in order; if none gave one, it is a 502.
pub images-IsAnswer :
    (one_image : ℕ → Option CollectedImage) (req : ImageRequest) (count : ℕ)
    → IsCount req.n count
    → IsAnswer (shown one_image count) (images one_image req)
unfolding images to_images_response
images-IsAnswer one_image req count h =
    let n = clamp_n-IsCount req.n count h in
    let same : gather one_image 0 (clamp_n req.n) ≡ shown one_image count =
      ap (gather one_image 0) n ∙ gather-shown one_image count in
    elim (List-cases (shown one_image count)) [
      | inl e ↦ rw (e, same ∙ e, images) refl
      | inr (img, rest, e) ↦ rw (e, same ∙ e, images) (_, refl, refl)
    ]

-- An entry of the body that the backend gets for a native request: the answer is always streamed and
-- never stored, the fields that identify the client are gone, all else is the client's.
abbrev pub backend_entry : Fields → String → String → Json
backend_entry raw session_id key =
    if str_eq "prompt_cache_key" key
    then text session_id
    else if str_eq "stream" key
    then bool true
    else if str_eq "store" key
    then bool false
    else if str_eq "metadata" key || str_eq "user" key || str_eq "safety_identifier" key
    then null
    else get_in raw key

pub responses_body-entries :
    (raw : Fields) (session_id key : String)
    → get_in (responses_body raw session_id) key ≡ backend_entry raw session_id key
unfolding responses_body
responses_body-entries raw session_id key =
    let first = delete_in raw "metadata" in
    let second = delete_in first "user" in
    let stripped = strip_fingerprint raw in
    let stored = put_in stripped "store" (bool false) in
    let streamed = put_in stored "stream" (bool true) in
    ground (
      arith,
      get_in-delete_in raw "metadata" key,
      get_in-delete_in first "user" key,
      get_in-delete_in second "safety_identifier" key,
      get_in-put_in stripped "store" key (bool false),
      get_in-put_in stored "stream" key (bool true),
      get_in-put_in streamed "prompt_cache_key" key (text session_id),
    )
