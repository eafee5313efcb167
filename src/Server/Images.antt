-- ===== src/Server/Images.antt =====
-- internal/server/server.go: `imageGenerations` and `dispatchImages`. JSON coding and the providers'
-- own code are parameters: `decode` is the request of a body, `encode` its normalized form, `none` an
-- error, and `fn` the call of a provider.
use mathlib.Core.Path.{subst}
use apiforge.Base.{
  ◌≡◌, inl, inr, String, true, not, Option, none, some, List, [], ℤ, if◌then◌else◌, str_eq, arith,
  Bool-cases, Option-cases,
}
use apiforge.Base.Text.{Bytes, text_append}
use apiforge.Registry.{Provider, Registry, find_by_model, has_capability, cap_images}
use apiforge.Registry.Routing.{IsFirst, serves, Searches, find_by_model-Searches}
use apiforge.Server.Handlers.{Handled, answered, failed, RequestContext, invalid, called}
use apiforge.Server.Handlers.Dispatch.{called-answered}

pub record ImageInput : Type 0 where
  pub b64 : String
  pub content_type : String
  pub filename : String

pub record ImageRequest : Type 0 where
  pub model : String
  pub prompt : String
  pub n : ℤ
  pub size : String
  pub quality : String
  pub background : String
  pub output_format : String
  pub images : List ImageInput
  pub mask : Option ImageInput

abbrev pub default_image_model : String
default_image_model = "gpt-image-1"

-- The request with the model that it is routed by.
abbrev pub with_model : ImageRequest → ImageRequest
with_model req = record req {
  model = if str_eq req.model "" then default_image_model else req.model;
}

module _ {ℓ} {R : Type ℓ} (encode : ImageRequest → Option Bytes)
    (fn : Provider → RequestContext → Bytes → Option R) where
  -- `dispatchImages` from the provider on.
  unfoldable pub images_to : RequestContext → ImageRequest → Provider → Handled R
  images_to rctx req p =
      if not (has_capability p cap_images)
      then failed 400 invalid (
          text_append "The model `"
            (text_append req.model "` does not support the Images API on this gateway."))
      else elim (encode req) [
        | none ↦ failed 500 "api_error" "Failed to encode request."
        | some body ↦ called (fn p rctx body)
      ]

  unfoldable pub dispatch_images : Registry → RequestContext → ImageRequest → Handled R
  unfolding images_to
  dispatch_images reg rctx req = elim (find_by_model reg (with_model req).model) [
    | none ↦ failed 404 invalid (text_append "No provider serves model: " (with_model req).model)
    | some p ↦ images_to rctx (with_model req) p
  ]

  -- `imageGenerations`; a body of `none` could not be read. Input images are dropped.
  unfoldable pub image_generations :
      (Bytes → Option ImageRequest) → Registry → RequestContext → Option Bytes → Handled R
  unfolding dispatch_images
  image_generations decode reg rctx none = failed 400 invalid "Failed to read request body."
  image_generations decode reg rctx (some body) = elim (decode body) [
    | none ↦ failed 400 invalid "Invalid JSON body."
    | some req ↦
        if str_eq req.prompt ""
        then failed 400 invalid "Missing required parameter: 'prompt'."
        else dispatch_images reg rctx (record req { images = []; mask = none })
  ]

  images_to-answered :
      (rctx : RequestContext) (req : ImageRequest) (p : Provider) (r : R)
      → images_to rctx req p ≡ answered r
      → (has_capability p cap_images ≡ true)
        × (body : Bytes) × (encode req ≡ some body)
        × (fn p rctx body ≡ some r)
  unfolding images_to
  images_to-answered rctx req p r e = elim (Bool-cases (has_capability p cap_images)) [
    | inl able ↦ elim (Option-cases (encode req)) [
      | inl bad ↦ absurd (ground (arith, rw (able, bad) at e))
      | inr (body, good) ↦
          (able, body, good, called-answered (fn p rctx body) r (rw (able, good) at e))
    ]
    | inr unable ↦ absurd (ground (arith, rw unable at e))
  ]

  -- An image answer comes only from the first ready provider, in the order of registration, that owns
  -- the request's model, or the default model if the request names none, and that serves images; the
  -- provider was sent the request with that model written in.
  pub dispatch_images-answered :
      (reg : Registry) (rctx : RequestContext) (req : ImageRequest) (r : R)
      → dispatch_images reg rctx req ≡ answered r
      → (p : Provider) × IsFirst (serves (with_model req).model) reg.providers p
        × (has_capability p cap_images ≡ true)
        × (body : Bytes) × (encode (with_model req) ≡ some body)
        × (fn p rctx body ≡ some r)
  unfolding dispatch_images
  dispatch_images-answered reg rctx req r e =
      elim (Option-cases (find_by_model reg (with_model req).model)) [
        | inl unowned ↦ absurd (ground (arith, rw (unowned, dispatch_images) at e))
        | inr (p, owned) ↦
            let first =
              subst (Searches (serves (with_model req).model) reg.providers) owned
                (find_by_model-Searches reg (with_model req).model) in
            let (able, body, good, given) =
              images_to-answered rctx (with_model req) p r (rw (owned, dispatch_images) at e) in
            (p, first, able, body, good, given)
      ]
