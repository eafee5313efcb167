-- ===== src/Cursor/Frames/Stream.antt =====
-- Frames that arrive on a stream, one after another, and where the reading stops.
use mathlib.Core.Path.{subst}
use apiforge.Base.{
  ℕ, zero, suc, ◌/◌, ◌%◌, ◌^◌, ◌<◌, ◌≤◌, ◌≡◌, refl, ◌∙◌, ap, false, inl, inr, Bool-cases, lt→ltb,
  Option, List, [], ◌∷◌, ◌++◌, append_assoc, arith, ltb, length, take, drop, length-append, All,
}
use apiforge.Base.Text.{Bytes}
use apiforge.Cursor.{max_frame_bytes}
use apiforge.Cursor.Messages.{take-length, drop-length}
use apiforge.Cursor.Frames.{put_uint32, uint32, frame, emitted, deltas_on, stream_deltas}

-- A frame to be sent: its flag and its payload.
abbrev pub Frame : Type 0
Frame = ℕ × Bytes

unfoldable pub send : List Frame → Bytes
send [] = []
send ((flag, payload) ∷ rest) = frame payload flag ++ send rest

abbrev pub IsSendable : Frame → Type 0
IsSendable (flag, payload) = length payload ≤ max_frame_bytes

-- Bytes at which the loop stops: less than a header, a length that is too large, or less than the
-- announced payload.
pub data IsCut : Bytes → Type 0 where
  short : (tail : Bytes) → length tail < 5 → IsCut tail
  oversized :
      (flag a b c d : ℕ) (rest : Bytes)
      → max_frame_bytes < uint32 a b c d
      → IsCut (flag ∷ a ∷ b ∷ c ∷ d ∷ rest)
  missing :
      (flag a b c d : ℕ) (rest : Bytes)
      → length rest < uint32 a b c d
      → IsCut (flag ∷ a ∷ b ∷ c ∷ d ∷ rest)

uint32-put :
    (n : ℕ)
    → n < 2 ^ 32
    → uint32 (n / 2 ^ 24 % 256) (n / 2 ^ 16 % 256) (n / 2 ^ 8 % 256) (n % 256) ≡ n
uint32-put n h = omega arith

module _ (gunzip : Bytes → Option Bytes) where
  abbrev pub sent : List Frame → List Bytes
  sent [] = []
  sent ((flag, payload) ∷ rest) = emitted gunzip flag payload ++ sent rest

  deltas_on-short : (fuel : ℕ) (tail : Bytes) → length tail < 5 → deltas_on gunzip fuel tail ≡ []
  unfolding deltas_on
  deltas_on-short zero tail h = refl
  deltas_on-short (suc fuel) [] h = refl
  deltas_on-short (suc fuel) (a ∷ []) h = refl
  deltas_on-short (suc fuel) (a ∷ b ∷ []) h = refl
  deltas_on-short (suc fuel) (a ∷ b ∷ c ∷ []) h = refl
  deltas_on-short (suc fuel) (a ∷ b ∷ c ∷ d ∷ []) h = refl
  deltas_on-short (suc fuel) (a ∷ b ∷ c ∷ d ∷ e ∷ tail) h = absurd (omega arith)

  deltas_on-cut : (fuel : ℕ) (tail : Bytes) → IsCut tail → deltas_on gunzip fuel tail ≡ []
  unfolding deltas_on
  deltas_on-cut fuel tail (short t h) = deltas_on-short fuel tail h
  deltas_on-cut zero tail (oversized flag a b c d rest h) = refl
  deltas_on-cut (suc fuel) tail (oversized flag a b c d rest h) =
      rw (lt→ltb max_frame_bytes (uint32 a b c d) h, deltas_on) refl
  deltas_on-cut zero tail (missing flag a b c d rest h) = refl
  deltas_on-cut (suc fuel) tail (missing flag a b c d rest h) =
      elim (Bool-cases (ltb max_frame_bytes (uint32 a b c d))) [
        | inl e ↦ rw (e, deltas_on) refl
        | inr e ↦ rw (e, lt→ltb (length rest) (uint32 a b c d) h, deltas_on) refl
      ]

  deltas_on-next :
      (fuel flag a b c d l : ℕ) (rest : Bytes)
      → uint32 a b c d ≡ l
      → ltb max_frame_bytes l ≡ false
      → ltb (length rest) l ≡ false
      → deltas_on gunzip (suc fuel) (flag ∷ a ∷ b ∷ c ∷ d ∷ rest)
        ≡ emitted gunzip flag (take l rest) ++ deltas_on gunzip fuel (drop l rest)
  unfolding deltas_on
  deltas_on-next fuel flag a b c d l rest e small whole =
      subst
        (λ k.
          deltas_on gunzip (suc fuel) (flag ∷ a ∷ b ∷ c ∷ d ∷ rest)
          ≡ emitted gunzip flag (take k rest) ++ deltas_on gunzip fuel (drop k rest))
        e
        (let small' : ltb max_frame_bytes (uint32 a b c d) ≡ false =
            ap (ltb max_frame_bytes) e ∙ small in
          let whole' : ltb (length rest) (uint32 a b c d) ≡ false =
            ap (ltb (length rest)) e ∙ whole in
          rw (small', whole', deltas_on) refl)

  deltas_on-frame :
      (fuel flag : ℕ) (payload rest : Bytes)
      → length payload ≤ max_frame_bytes
      → deltas_on gunzip (suc fuel) (frame payload flag ++ rest)
        ≡ emitted gunzip flag payload ++ deltas_on gunzip fuel rest
  unfolding frame put_uint32
  deltas_on-frame fuel flag payload rest h =
      let n = length payload in
      let same : n % 2 ^ 32 ≡ n = omega arith in
      let small : ltb max_frame_bytes n ≡ false = ground arith in
      let whole : ltb (length (payload ++ rest)) n ≡ false =
        ground (arith, length-append payload rest) in
      deltas_on-next fuel flag _ _ _ _ n (payload ++ rest)
        (uint32-put (n % 2 ^ 32) (omega arith) ∙ same) small whole
      ∙ rw (take-length payload rest, drop-length payload rest) refl

  deltas_on-send :
      (fuel : ℕ) (frames : List Frame) (tail : Bytes)
      → All IsSendable frames
      → IsCut tail
      → length frames ≤ fuel
      → deltas_on gunzip fuel (send frames ++ tail) ≡ sent frames
  unfolding send
  deltas_on-send fuel [] tail h cut enough = deltas_on-cut fuel tail cut
  deltas_on-send zero (f ∷ frames) tail h cut enough = absurd (omega arith)
  deltas_on-send (suc fuel) ((flag, payload) ∷ frames) tail h cut enough =
      rw (append_assoc (frame payload flag) (send frames) tail) (
        deltas_on-frame fuel flag payload (send frames ++ tail) h.0
        ∙ ap (λ rest. emitted gunzip flag payload ++ rest)
            (deltas_on-send fuel frames tail h.1 cut (omega arith)))

  length-send : (frames : List Frame) → length frames ≤ length (send frames)
  unfolding send frame
  length-send [] = omega arith
  length-send ((flag, payload) ∷ frames) = omega (
    arith,
    length-send frames,
    length-append (put_uint32 (length payload % 2 ^ 32) ++ payload) (send frames),
  )

  -- Of frames within the size limit that arrive one after another, `streamDeltas` delivers the text
  -- of each in order, except trailers, frames that do not inflate and frames without text; it stops
  -- without delivering more at the end of the stream, in the middle of a frame, and at a length above
  -- the limit.
  pub stream_deltas-send :
      (frames : List Frame) (tail : Bytes)
      → All IsSendable frames
      → IsCut tail
      → stream_deltas gunzip (send frames ++ tail) ≡ sent frames
  unfolding stream_deltas
  stream_deltas-send frames tail h cut =
      deltas_on-send (length (send frames ++ tail)) frames tail h cut
        (omega (arith, length-append (send frames) tail, length-send frames))
