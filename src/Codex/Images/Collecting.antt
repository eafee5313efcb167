-- ===== src/Codex/Images/Collecting.antt =====
-- Where the image that `collect_image` returns comes from, and what a data URL is read back as.
use mathlib.Core.Option.{some-injective}
use mathlib.Core.Path.{subst}
use apiforge.Base.{
  ◌≡◌, ◌⊎◌, refl, ◌∙◌, ap, sym, inl, inr, String, Bool, true, false, not, ◌&&◌, Option, none, some,
  List, [], ◌∷◌, str_eq, eq_iff, Bool-cases, arith,
}
use apiforge.Json.{Json, get, is_object, str}
use apiforge.Codex.Images.{
  CollectedImage, Reading, unread, newer, on_partial, item_image, on_image_event, last_resort,
  collect_from, collect_image,
}

-- An event that brings a whole image, and one that brings a partial one.
abbrev pub Finishes : String → Json → Type 0
Finishes b64 evt =
    (str (get evt "type") ≡ "response.output_item.done")
    × (str (get (get evt "item") "type") ≡ "image_generation_call")
    × (str (get (get evt "item") "result") ≡ b64)

abbrev pub Shows : String → Json → Type 0
Shows b64 evt =
    (str (get evt "type") ≡ "response.image_generation_call.partial_image")
    × (str (get evt "partial_image_b64") ≡ b64)

abbrev pub Completes : Json → Type 0
Completes evt = str (get evt "type") ≡ "response.completed"

-- Some event of the list.
pub data Some (P : Json → Type 0) : List Json → Type 0 where
  here : (evt : Json) (rest : List Json) → P evt → Some P (evt ∷ rest)
  later : (evt : Json) (rest : List Json) → Some P rest → Some P (evt ∷ rest)

-- What one event does: it brings the image, or it changes the variables for a reason.
abbrev Explained : Reading → Json → Reading × Option CollectedImage → Type 0
Explained r evt (r', out) =
    ((img : CollectedImage) × (out ≡ some img) × Finishes img.b64 evt × (str_eq img.b64 "" ≡ false))
    ⊎ (out ≡ none)
      × ((r'.last_partial ≡ r.last_partial) ⊎ Shows r'.last_partial evt)
      × ((r'.completed ≡ r.completed) ⊎ Completes evt)

newer-cases : (s old : String) → (newer s old ≡ old) ⊎ (s ≡ newer s old)
newer-cases s old = ground arith

item_image-Explained :
    (r : Reading) (evt : Json)
    → str (get evt "type") ≡ "response.output_item.done"
    → Explained r evt (r, item_image r (get evt "item"))
unfolding item_image
item_image-Explained r evt e =
    let item = get evt "item" in
    elim (Bool-cases (
      is_object item
      && str_eq (str (get item "type")) "image_generation_call"
      && not (str_eq (str (get item "result")) ""))) [
        | inl found ↦
            rw (found, item_image)
              (inl (
                _,
                refl,
                (e, ground (arith, eq_iff (str (get item "type")) "image_generation_call"), refl),
                ground arith,
              ))
        | inr missing ↦ rw (missing, item_image) (inr (refl, inl refl, inl refl))
      ]

on_image_event-Explained : (r : Reading) (evt : Json) → Explained r evt (on_image_event r evt)
unfolding on_image_event on_partial
on_image_event-Explained r evt =
    let type = str (get evt "type") in
    elim (Bool-cases (str_eq type "response.completed")) [
      | inl done ↦
          rw (done, on_image_event)
            (inr (refl, inl refl, inr ((eq_iff type "response.completed").0 done)))
      | inr running ↦
          elim (Bool-cases (str_eq type "response.image_generation_call.partial_image")) [
            | inl partial ↦
                rw (running, partial, on_image_event)
                  (inr (
                    refl,
                    (elim (newer-cases (str (get evt "partial_image_b64")) r.last_partial) [
                      | inl kept ↦ inl kept
                      | inr shown ↦ inr (
                        (eq_iff type "response.image_generation_call.partial_image").0 partial,
                        shown,
                      )
                    ]),
                    inl refl,
                  ))
            | inr whole ↦ elim (Bool-cases (str_eq type "response.output_item.done")) [
              | inl item ↦
                  rw (running, whole, item, on_image_event)
                    (item_image-Explained r evt ((eq_iff type "response.output_item.done").0 item))
              | inr ignored ↦
                  rw (running, whole, ignored, on_image_event) (inr (refl, inl refl, inl refl))
            ]
          ]
    ]

-- Where an image comes from, for a reading that may have begun.
abbrev pub Sourced : Reading → List Json → CollectedImage → Bool → Type 0
Sourced r evts img completed =
    Some (Finishes img.b64) evts
    ⊎ (completed ≡ true)
      × ((r.last_partial ≡ img.b64) ⊎ Some (Shows img.b64) evts)
      × ((r.completed ≡ true) ⊎ Some Completes evts)

last_resort-Sourced :
    (r : Reading) (img : CollectedImage)
    → last_resort r ≡ some img
    → (str_eq img.b64 "" ≡ false) × Sourced r [] img r.completed
unfolding last_resort
last_resort-Sourced r img h = elim (Bool-cases (r.completed && not (str_eq r.last_partial ""))) [
  | inr nothing ↦ absurd (ground (arith, rw nothing at h))
  | inl shown ↦
      let same : r.last_partial ≡ img.b64 =
        ap (λ x. x.b64) (some-injective _ img (rw shown at h)) in
      let (full, seen) : (r.completed ≡ true) × (str_eq r.last_partial "" ≡ false) =
        (ground (arith, shown), ground (arith, shown)) in
      (ap (λ b. str_eq b "") (sym same) ∙ seen, inr (full, inl same, inl full))
]

-- One event earlier.
Sourced-later :
    (r : Reading) (evt : Json) (rest : List Json) (out : Reading × Option CollectedImage)
    (img : CollectedImage) (completed : Bool)
    → (out.0.last_partial ≡ r.last_partial) ⊎ Shows out.0.last_partial evt
    → (out.0.completed ≡ r.completed) ⊎ Completes evt
    → Sourced out.0 rest img completed
    → Sourced r (evt ∷ rest) img completed
Sourced-later r evt rest out img completed shows ends (inl found) = inl (later evt rest found)
Sourced-later r evt rest out img completed shows ends (inr (full, partial, ended)) = inr (
  full,
  elim partial [
    | inr seen ↦ inr (later evt rest seen)
    | inl kept ↦ elim shows [
      | inl old ↦ inl (sym old ∙ kept)
      | inr (type, piece) ↦ inr (here evt rest (type, piece ∙ kept))
    ]
  ],
  elim ended [
    | inr seen ↦ inr (later evt rest seen)
    | inl kept ↦ elim ends [ inl old ↦ inl (sym old ∙ kept) | inr type ↦ inr (here evt rest type) ]
  ],
)

collect_from-Sourced :
    (r : Reading) (evts : List Json) (img : CollectedImage) (completed : Bool)
    → collect_from r evts ≡ (some img, completed)
    → (str_eq img.b64 "" ≡ false) × Sourced r evts img completed
unfolding collect_from
collect_from-Sourced r [] img completed h =
    let (full, from) = last_resort-Sourced r img (ap (λ x. x.0) h) in
    (full, subst (Sourced r [] img) (ap (λ x. x.1) h) from)
collect_from-Sourced r (evt ∷ rest) img completed h = elim (on_image_event-Explained r evt) [
  | inl (found, is, finishes, full) ↦
      let same : found ≡ img =
        some-injective found img (ap (λ x. x.0) (rw (is, collect_from) at h)) in
      subst (λ i. (str_eq i.b64 "" ≡ false) × Sourced r (evt ∷ rest) i completed) same
        (full, inl (here evt rest finishes))
  | inr (is, shows, ends) ↦
      let (full, from) =
        collect_from-Sourced (on_image_event r evt).0 rest img completed
          (rw (is, collect_from) at h) in
      (full, Sourced-later r evt rest (on_image_event r evt) img completed shows ends from)
]

-- An image that is returned is not empty, and is the result of a finished item, or, only when the
-- stream was completed, one of the partial images: a truncated stream gives no partial image.
pub collect_image-Sourced :
    (evts : List Json) (img : CollectedImage) (completed : Bool)
    → collect_image evts ≡ (some img, completed)
    → (str_eq img.b64 "" ≡ false)
      × (Some (Finishes img.b64) evts
          ⊎ (completed ≡ true) × Some (Shows img.b64) evts × Some Completes evts)
collect_image-Sourced evts img completed h =
    let (full, from) = collect_from-Sourced unread evts img completed h in
    (
      full,
      elim from [
        | inl found ↦ inl found
        | inr (done, partial, ended) ↦ inr (
          done,
          elim partial [
            | inl blank ↦ absurd (ground (arith, rw (sym blank) at full))
            | inr seen ↦ seen
          ],
          elim ended [ inl never ↦ cc | inr seen ↦ seen ],
        )
      ],
    )
