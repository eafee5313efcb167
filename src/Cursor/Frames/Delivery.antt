-- ===== src/Cursor/Frames/Delivery.antt =====
-- What `streamDeltas` delivers of the frames that Cursor sends: messages of text, compressed ones, and
-- trailers.
use apiforge.Base.{
  ℕ, ◌/◌, ◌%◌, ◌≡◌, refl, ◌∙◌, ap, Option, none, some, List, [], ◌∷◌, ◌++◌, map, All, ==_iff,
}
use apiforge.Base.Text.{Bytes}
use apiforge.Cursor.Messages.{write_fields}
use apiforge.Cursor.Response.{
  Part, field_of, IsPart, text_of_parts, extract_response_text-write_fields,
}
use apiforge.Cursor.Frames.{deliver, emitted, stream_deltas}
use apiforge.Cursor.Frames.Stream.{Frame, send, sent, IsSendable, IsCut, stream_deltas-send}

-- A message of text and other fields, the same compressed, compressed bytes that do not inflate, and a
-- trailer with its flag.
pub data Shipped : Type 0 where
  plain : List Part → Shipped
  zipped : Bytes → List Part → Shipped
  damaged : Bytes → Shipped
  trailer : ℕ → Bytes → Shipped

abbrev payload_of : List Part → Bytes
payload_of parts = write_fields (map field_of parts)

abbrev pub wire : Shipped → Frame
wire (plain parts) = (0, payload_of parts)
wire (zipped payload parts) = (1, payload)
wire (damaged payload) = (1, payload)
wire (trailer flag payload) = (flag, payload)

-- The text of a message, if it has any.
abbrev pub any_text : Bytes → List Bytes
any_text [] = []
any_text (b ∷ text) = (b ∷ text) ∷ []

abbrev pub texts : List Shipped → List Bytes
texts [] = []
texts (plain parts ∷ rest) = any_text (text_of_parts parts) ++ texts rest
texts (zipped payload parts ∷ rest) = any_text (text_of_parts parts) ++ texts rest
texts (damaged payload ∷ rest) = texts rest
texts (trailer flag payload ∷ rest) = texts rest

deliver-any_text : (s : Bytes) → deliver s ≡ any_text s
unfolding deliver
deliver-any_text [] = refl
deliver-any_text (b ∷ s) = refl

module _ (gunzip : Bytes → Option Bytes) where
  -- Bit 1 of the flag is the trailer's.
  abbrev pub IsShipped : Shipped → Type 0
  IsShipped (plain parts) = All IsPart parts
  IsShipped (zipped payload parts) = All IsPart parts × (gunzip payload ≡ some (payload_of parts))
  IsShipped (damaged payload) = gunzip payload ≡ none
  IsShipped (trailer flag payload) = flag / 2 % 2 ≡ 1

  sent-texts :
      (frames : List Shipped) → All IsShipped frames → sent gunzip (map wire frames) ≡ texts frames
  unfolding emitted
  sent-texts [] h = refl
  sent-texts (plain parts ∷ rest) h =
      ap (λ xs. xs ++ sent gunzip (map wire rest))
        (ap deliver (extract_response_text-write_fields parts h.0)
          ∙ deliver-any_text (text_of_parts parts))
      ∙ ap (◌++◌ (any_text (text_of_parts parts))) (sent-texts rest h.1)
  sent-texts (zipped payload parts ∷ rest) h =
      rw (h.0.1, emitted)
        (ap (λ xs. xs ++ sent gunzip (map wire rest))
            (ap deliver (extract_response_text-write_fields parts h.0.0)
              ∙ deliver-any_text (text_of_parts parts))
          ∙ ap (◌++◌ (any_text (text_of_parts parts))) (sent-texts rest h.1))
  sent-texts (damaged payload ∷ rest) h = rw (h.0, emitted) (sent-texts rest h.1)
  sent-texts (trailer flag payload ∷ rest) h =
      rw ((==_iff (flag / 2 % 2) 1).1 h.0, emitted) (sent-texts rest h.1)

  -- Of messages, compressed messages, damaged ones and trailers that arrive one after another within
  -- the size limit, `streamDeltas` delivers the text of each message that has any, compressed or not,
  -- in order, and nothing of the damaged ones and the trailers; it stops at the end of the stream, in
  -- the middle of a frame, and at a length above the limit.
  pub stream_deltas-texts :
      (frames : List Shipped) (tail : Bytes)
      → All IsShipped frames
      → All IsSendable (map wire frames)
      → IsCut tail
      → stream_deltas gunzip (send (map wire frames) ++ tail) ≡ texts frames
  stream_deltas-texts frames tail h small cut =
      stream_deltas-send gunzip (map wire frames) tail small cut ∙ sent-texts frames h
