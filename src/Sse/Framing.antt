-- ===== src/Sse/Framing.antt =====
-- What is written as a frame is read as one.
use apiforge.Base.{◌≡◌, refl, ◌∙◌, ap, false, List, [], ◌∷◌, ◌++◌, append_assoc, ◌==◌, All, arith}
use apiforge.Base.Text.{Bytes, codes, same_bytes}
use apiforge.Sse.{
  is_eol, trim_eol, raw_lines, cut_colon, joined, blank, field_line, on_line, frames_on, frames,
  data_frame,
}

-- The text has no line break.
abbrev pub IsLine : Bytes → Type 0
IsLine line = All (λ c. is_eol c ≡ false) line

raw_lines-IsLine :
    (line rest : Bytes)
    → IsLine line
    → raw_lines (line ++ b'\n' ∷ rest) ≡ (line ++ b'\n' ∷ []) ∷ raw_lines rest
unfolding raw_lines
raw_lines-IsLine [] rest h = refl
raw_lines-IsLine (c ∷ line) rest h =
    let later = raw_lines-IsLine line rest h.1 in
    let inside : (c == b'\n') ≡ false = ground (arith, h.0) in rw (inside, later) refl

trim_eol-IsLine : (line : Bytes) → IsLine line → trim_eol (line ++ b'\n' ∷ []) ≡ line
unfolding trim_eol
trim_eol-IsLine [] h = refl
trim_eol-IsLine (c ∷ []) h = rw h.0 refl
trim_eol-IsLine (c ∷ d ∷ line) h = rw (trim_eol-IsLine (d ∷ line) h.1) refl

frames_on-data_line :
    (payload : Bytes) (later : List Bytes)
    → IsLine payload
    → frames_on blank ((codes "data: " ++ payload ++ b'\n' ∷ []) ∷ (b'\n' ∷ []) ∷ later)
      ≡ record { event = []; «data» = payload } ∷ frames_on blank later
unfolding frames_on on_line field_line cut_colon same_bytes joined trim_eol
frames_on-data_line payload later h =
    let raw = codes "data: " ++ payload ++ b'\n' ∷ [] in
    let trimmed =
      trim_eol-IsLine (codes "data: " ++ payload)
        (refl, (refl, (refl, (refl, (refl, (refl, h)))))) in
    ap (λ l. (on_line blank l raw).0 ++ frames_on (on_line blank l raw).1 ((b'\n' ∷ []) ∷ later))
      trimmed

-- An iterator that meets a frame written by `DataFrame`, with a payload on one line, yields exactly
-- that payload and goes on with what follows as from the start.
pub frames-data_frame :
    (payload rest : Bytes)
    → IsLine payload
    → frames (data_frame payload ++ rest) ≡ record { event = []; «data» = payload } ∷ frames rest
unfolding data_frame frames raw_lines
frames-data_frame payload rest h =
    let line = codes "data: " ++ payload in
    ap frames (append_assoc line (codes "\n\n") rest)
    ∙ ap (frames_on blank)
        (raw_lines-IsLine line (b'\n' ∷ rest) (refl, (refl, (refl, (refl, (refl, (refl, h)))))))
    ∙ frames_on-data_line payload (raw_lines rest) h
