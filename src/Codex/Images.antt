-- ===== src/Codex/Images.antt =====
-- internal/provider/codex/images.go: the bodies of image requests, `collectImage` on the decoded
-- events of the upstream, and the answer's shape. The texts of the labels around an input image are
-- constructors, the opening one with the image's number.
pub mod Collecting
use apiforge.Base.{
  ℕ, suc, String, Bool, true, false, not, ◌&&◌, ◌||◌, Option, none, some, List, [], ◌∷◌, ◌++◌, map,
  if◌then◌else◌, str_eq,
}
use apiforge.Base.Text.{text_append, has_prefix}
use apiforge.Json.{Json, get, is_object, str}
use apiforge.Server.Images.{ImageInput, ImageRequest}
use apiforge.Codex.Collector.{first_non_empty}

unfoldable pub image_model_for : String → String
image_model_for model =
    if str_eq model "" || str_eq model "gpt-image-1"
    then ""
    else if has_prefix model "gpt-image"
    then model
    else ""

unfoldable pub host_model : String → String
host_model model =
    if not (str_eq model "") && not (str_eq model "gpt-image-1") && has_prefix model "gpt-5"
    then model
    else "gpt-5.5"

unfoldable pub data_url : ImageInput → String
data_url img = text_append "data:" (
    text_append (if str_eq img.content_type "" then "image/png" else img.content_type)
      (text_append ";base64," img.b64))

-- The keys that are set only if there is something to say.
pub record ImageTool : Type 0 where
  pub model : Option String
  pub size : Option String
  pub quality : Option String
  pub output_format : Option String
  pub background : Option String
  pub input_image_mask : Option String

abbrev pub given : String → Option String
given s = if str_eq s "" then none else some s

abbrev pub chosen : String → Option String
chosen s = if str_eq s "" || str_eq s "auto" then none else some s

unfoldable pub image_tool : ImageRequest → ImageTool
unfolding image_model_for data_url
image_tool req = record {
  model = given (image_model_for req.model);
  size = chosen req.size;
  quality = chosen req.quality;
  output_format = given req.output_format;
  background = chosen req.background;
  input_image_mask = elim req.mask [ none ↦ none | some mask ↦ some (data_url mask) ];
}

pub data ImageContent : Type 0 where
  input_text : String → ImageContent
  open_label : ℕ → ImageContent
  input_image : String → ImageContent
  close_label : ImageContent

-- The keys of `baseImageBody` that are not constant.
pub record ImageBody : Type 0 where
  pub model : String
  pub content : List ImageContent
  pub tool : ImageTool
  pub prompt_cache_key : String

unfoldable pub build_image_gen_body : ImageRequest → String → ImageBody
unfolding host_model image_tool
build_image_gen_body req session_id = record {
  model = host_model req.model;
  content = input_text req.prompt ∷ [];
  tool = image_tool req;
  prompt_cache_key = session_id;
}

unfoldable pub labelled : ℕ → List ImageInput → List ImageContent
unfolding data_url
labelled i [] = []
labelled i (img ∷ rest) =
    open_label (suc i) ∷ input_image (data_url img) ∷ close_label ∷ labelled (suc i) rest

unfoldable pub build_image_edit_body : ImageRequest → String → ImageBody
unfolding host_model image_tool labelled
build_image_edit_body req session_id = record {
  model = host_model req.model;
  content = labelled 0 req.images ++ input_text req.prompt ∷ [];
  tool = image_tool req;
  prompt_cache_key = session_id;
}

pub record CollectedImage : Type 0 where
  pub b64 : String
  pub output_format : String
  pub size : String
  pub revised_prompt : String

-- The variables of `collectImage`.
pub record Reading : Type 0 where
  pub last_partial : String
  pub output_format : String
  pub size : String
  pub completed : Bool

abbrev pub unread : Reading
unread = record { last_partial = ""; output_format = "png"; size = ""; completed = false }

abbrev pub newer : String → String → String
newer s old = if str_eq s "" then old else s

unfoldable pub on_partial : Reading → Json → Reading
on_partial r evt = record r {
  last_partial = newer (str (get evt "partial_image_b64")) r.last_partial;
  output_format = newer (str (get evt "output_format")) r.output_format;
  size = newer (str (get evt "size")) r.size;
}

-- The image that a finished item holds.
unfoldable pub item_image : Reading → Json → Option CollectedImage
unfolding first_non_empty
item_image r item =
    if is_object item
      && str_eq (str (get item "type")) "image_generation_call"
      && not (str_eq (str (get item "result")) "")
    then some (record {
      b64 = str (get item "result");
      output_format = first_non_empty (str (get item "output_format") ∷ r.output_format ∷ []);
      size = first_non_empty (str (get item "size") ∷ r.size ∷ []);
      revised_prompt = str (get item "revised_prompt");
    })
    else none

-- The switch on the event's type: the variables after it, and an image to return at once.
unfoldable pub on_image_event : Reading → Json → Reading × Option CollectedImage
unfolding on_partial item_image
on_image_event r evt =
    let type = str (get evt "type") in
    if str_eq type "response.completed"
    then (record r { completed = true }, none)
    else if str_eq type "response.image_generation_call.partial_image"
    then (on_partial r evt, none)
    else if str_eq type "response.output_item.done"
    then (r, item_image r (get evt "item"))
    else (r, none)

-- After the loop: the last partial image, of a stream that completed.
unfoldable pub last_resort : Reading → Option CollectedImage
last_resort r =
    if r.completed && not (str_eq r.last_partial "")
    then some (record {
      b64 = r.last_partial;
      output_format = r.output_format;
      size = r.size;
      revised_prompt = "";
    })
    else none

unfoldable pub collect_from : Reading → List Json → Option CollectedImage × Bool
unfolding on_image_event last_resort
collect_from r [] = (last_resort r, r.completed)
collect_from r (evt ∷ rest) =
    let step = on_image_event r evt in
    let more = collect_from step.0 rest in
    elim step.1 [ none ↦ more | some img ↦ (some img, r.completed) ]

abbrev pub collect_image : List Json → Option CollectedImage × Bool
collect_image evts = collect_from unread evts

-- One entry of `data`, and the keys of the answer that depend on the images.
pub record ImageEntry : Type 0 where
  pub b64_json : String
  pub revised_prompt : Option String

pub record ImagesResponse : Type 0 where
  pub «data» : List ImageEntry
  pub output_format : String
  pub size : Option String

abbrev pub entry_of : CollectedImage → ImageEntry
entry_of img = record { b64_json = img.b64; revised_prompt = given img.revised_prompt }

unfoldable pub to_images_response : List CollectedImage → ImagesResponse
to_images_response [] = record { «data» = []; output_format = "png"; size = none }
to_images_response (img ∷ rest) = record {
  «data» = map entry_of (img ∷ rest);
  output_format = img.output_format;
  size = given img.size;
}
