-- ===== src/Cursor/Frames.antt =====
-- internal/provider/cursor/protobuf.go: `frame` and `streamDeltas`, the Connect framing. The body of
-- the response is the list of its bytes up to the end of the stream; `gunzip` is a parameter, since it
-- only calls the standard library's decompressor; the result is the list of the calls of `onText`.
pub mod Stream
pub mod Delivery
use apiforge.Base.{
  ℕ, zero, suc, ◌+◌, ◌*◌, ◌/◌, ◌%◌, ◌^◌, Bool, true, false, Option, none, some, List, [], ◌∷◌, ◌++◌,
  ltb, ◌==◌, if◌then◌else◌, length, take, drop,
}
use apiforge.Base.Text.{Bytes}
use apiforge.Cursor.{max_frame_bytes, extract_response_text}

-- `binary.BigEndian.PutUint32` and `Uint32`.
unfoldable pub put_uint32 : ℕ → Bytes
put_uint32 n = n / 2 ^ 24 % 256 ∷ n / 2 ^ 16 % 256 ∷ n / 2 ^ 8 % 256 ∷ n % 256 ∷ []

abbrev pub uint32 : ℕ → ℕ → ℕ → ℕ → ℕ
uint32 a b c d = a * 2 ^ 24 + b * 2 ^ 16 + c * 2 ^ 8 + d

unfoldable pub frame : Bytes → ℕ → Bytes
unfolding put_uint32
frame payload flag = flag ∷ (put_uint32 (length payload % 2 ^ 32) ++ payload)

-- `if text := …; text != "" { onText(text) }`.
unfoldable pub deliver : Bytes → List Bytes
deliver [] = []
deliver (b ∷ text) = (b ∷ text) ∷ []

module _ (gunzip : Bytes → Option Bytes) where
  abbrev pub inflated : Option Bytes → List Bytes
  inflated none = []
  inflated (some payload) = deliver (extract_response_text payload)

  -- What one frame makes the loop call: bit 1 is the trailer's flag, bit 0 the compression's.
  unfoldable pub emitted : ℕ → Bytes → List Bytes
  unfolding deliver
  emitted flag payload =
      if flag / 2 % 2 == 1
      then []
      else if flag % 2 == 1
      then inflated (gunzip payload)
      else deliver (extract_response_text payload)

  -- The loop of `streamDeltas`, on fuel: each round reads a header of five bytes.
  unfoldable pub deltas_on : ℕ → Bytes → List Bytes
  unfolding emitted
  deltas_on (suc fuel) (flag ∷ a ∷ b ∷ c ∷ d ∷ rest) = elim (ltb max_frame_bytes (uint32 a b c d)) [
    | true ↦ []
    | false ↦ elim (ltb (length rest) (uint32 a b c d)) [
      | true ↦ []
      | false ↦
          emitted flag (take (uint32 a b c d) rest) ++ deltas_on fuel (drop (uint32 a b c d) rest)
    ]
  ]
  deltas_on _ _ = []

  unfoldable pub stream_deltas : Bytes → List Bytes
  unfolding deltas_on
  stream_deltas body = deltas_on (length body) body
