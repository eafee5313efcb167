-- ===== src/Server/Edits.antt =====
-- internal/server/server.go: `imageEdits` and `collectFormImages`. A form is its text values and its
-- files, by field; `none` is a body that is no form within the limit. `encode_base64` is the encoding of
-- encoding/base64.
use apiforge.Base.{String, Option, none, some, List, [], ◌∷◌, ◌++◌, ℤ, pos, if◌then◌else◌, str_eq}
use apiforge.Base.Text.{Bytes, codes, atoi, text_append}
use apiforge.Server.Handlers.{Handled, failed, invalid}
use apiforge.Server.Images.{ImageInput, ImageRequest}

-- A file whose content is none could not be opened or read.
pub record FormFile : Type 0 where
  pub content : Option Bytes
  pub content_type : String
  pub filename : String

pub record Form : Type 0 where
  pub value : String → String
  pub file : String → List FormFile

module _ (encode_base64 : Bytes → String) where
  unfoldable pub read_files : String → List FormFile → List ImageInput
  read_files field [] = []
  read_files field (f ∷ rest) = elim f.content [
    | none ↦ read_files field rest
    | some bytes ↦
        record {
          b64 = encode_base64 bytes;
          content_type = if str_eq f.content_type "" then "image/png" else f.content_type;
          filename = if str_eq f.filename "" then text_append field ".png" else f.filename;
        }
        ∷ read_files field rest
  ]

  unfoldable pub collect_form_images : Form → String → List ImageInput
  unfolding read_files
  collect_form_images form field =
      read_files field (form.file field) ++ read_files field (form.file (text_append field "[]"))

  abbrev number_or_zero : Option ℤ → ℤ
  number_or_zero none = pos 0
  number_or_zero (some n) = n

  abbrev first_image : List ImageInput → Option ImageInput
  first_image [] = none
  first_image (img ∷ rest) = some img

  unfoldable pub edit_request : Form → ImageRequest
  unfolding collect_form_images
  edit_request form = record {
    model = form.value "model";
    prompt = form.value "prompt";
    n = number_or_zero (atoi (codes (form.value "n")));
    size = form.value "size";
    quality = form.value "quality";
    background = "";
    output_format = "";
    images = collect_form_images form "image";
    mask = first_image (collect_form_images form "mask");
  }

  -- `dispatch_to` is `dispatchImages`.
  unfoldable pub image_edits {ℓ} :
      {R : Type ℓ} → (ImageRequest → Handled R) → Option Form → Handled R
  unfolding edit_request
  image_edits dispatch_to none =
      failed 400 invalid "Expected multipart/form-data within the size limit."
  image_edits dispatch_to (some form) =
      if str_eq (form.value "prompt") ""
      then failed 400 invalid "Missing required parameter: 'prompt'."
      else (elim (edit_request form).images [
        | [] ↦ failed 400 invalid "Missing required file: 'image'."
        | img ∷ rest ↦ dispatch_to (edit_request form)
      ])
