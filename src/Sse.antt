-- ===== src/Sse.antt =====
-- internal/util/sse/sse.go: reading and writing server-sent events. The stream is the list of its
-- bytes up to its end; the result of an iterator is the list of what it yields to a consumer that
-- takes everything.
pub mod Framing
mod Tests
use apiforge.Base.{
  ℕ, Bool, true, false, ◌||◌, Option, none, some, List, [], ◌∷◌, ◌++◌, ◌==◌, if◌then◌else◌,
}
use apiforge.Base.Text.{Bytes, codes, same_bytes}

pub record Event : Type 0 where
  pub event : Bytes
  pub «data» : Bytes

abbrev is_eol : ℕ → Bool
is_eol c = c == b'\n' || c == b'\r'

-- `strings.TrimRight(raw, "\r\n")`.
unfoldable pub trim_eol : Bytes → Bytes
trim_eol [] = []
trim_eol (c ∷ rest) = elim (trim_eol rest) [
  | [] ↦ if is_eol c then [] else c ∷ []
  | d ∷ kept ↦ c ∷ d ∷ kept
]

abbrev onto_first : ℕ → List Bytes → List Bytes
onto_first c [] = (c ∷ []) ∷ []
onto_first c (raw ∷ rest) = (c ∷ raw) ∷ rest

-- What the calls of `br.ReadString('\n')` return: the last one, with the error, may be empty.
unfoldable pub raw_lines : Bytes → List Bytes
raw_lines [] = [] ∷ []
raw_lines (c ∷ rest) =
    let later = raw_lines rest in if c == b'\n' then (c ∷ []) ∷ later else onto_first c later

-- `strings.Cut(line, ":")`.
unfoldable pub cut_colon : Bytes → Bytes × Bytes
cut_colon [] = ([], [])
cut_colon (c ∷ rest) =
    let later = cut_colon rest in if c == b':' then ([], rest) else (c ∷ later.0, later.1)

-- `strings.TrimPrefix(value, " ")`.
abbrev pub trim_blank : Bytes → Bytes
trim_blank [] = []
trim_blank (c ∷ rest) = if c == b' ' then rest else c ∷ rest

-- `strings.Join(data, "\n")`.
unfoldable pub joined : List Bytes → Bytes
joined [] = []
joined (x ∷ []) = x
joined (x ∷ y ∷ rest) = x ++ b'\n' ∷ joined (y ∷ rest)

-- The variables `ev.Event` and `data` of `Frames`.
pub record Reading : Type 0 where
  pub event : Bytes
  pub «data» : List Bytes

abbrev pub blank : Reading
blank = record { event = []; «data» = [] }

-- What `flush` yields; it leaves both variables empty.
abbrev pub flush : Reading → List Event
flush r = elim r.«data» [
  | [] ↦ elim r.event [ [] ↦ [] | c ∷ name ↦ record { event = c ∷ name; «data» = [] } ∷ [] ]
  | x ∷ rest ↦ record { event = r.event; «data» = joined (x ∷ rest) } ∷ []
]

-- The default case of the switch: any field but two is ignored.
unfoldable pub field_line : Reading → Bytes × Bytes → Reading
field_line r (field, value) =
    if same_bytes field (codes "event")
    then record r { event = trim_blank value }
    else if same_bytes field (codes "data")
    then record r { «data» = r.«data» ++ trim_blank value ∷ [] }
    else r

-- The switch on one line, given trimmed and raw.
unfoldable pub on_line : Reading → Bytes → Bytes → List Event × Reading
unfolding field_line cut_colon
on_line r [] [] = ([], r)
on_line r [] (c ∷ raw) = (flush r, blank)
on_line r (c ∷ line) raw = if c == b':' then ([], r) else ([], field_line r (cut_colon (c ∷ line)))

unfoldable pub frames_on : Reading → List Bytes → List Event
unfolding on_line trim_eol
frames_on r [] = flush r
frames_on r (raw ∷ rest) =
    let done = on_line r (trim_eol raw) raw in done.0 ++ frames_on done.1 rest

unfoldable pub frames : Bytes → List Event
unfolding frames_on raw_lines
frames body = frames_on blank (raw_lines body)

-- `Lines` skips empty lines.
unfoldable pub lines_of : List Bytes → List Bytes
unfolding trim_eol
lines_of [] = []
lines_of (raw ∷ rest) = elim (trim_eol raw) [
  | [] ↦ lines_of rest
  | c ∷ line ↦ (c ∷ line) ∷ lines_of rest
]

unfoldable pub lines : Bytes → List Bytes
unfolding lines_of raw_lines
lines body = lines_of (raw_lines body)

unfoldable pub data_frame : Bytes → Bytes
data_frame payload = codes "data: " ++ payload ++ codes "\n\n"

abbrev pub done : Bytes
done = codes "data: [DONE]\n\n"
