-- ===== src/Chat/Client.antt =====
-- What an OpenAI client makes of a stream of chunks.
use apiforge.Base.{
  ℕ, zero, suc, String, Option, none, some, List, [], ◌∷◌, ◌++◌, if◌then◌else◌, str_eq, ◌≡◌, refl,
  ap, length,
}
use apiforge.Base.Text.{text_append}
use apiforge.Chat.{
  ToolCall, ChunkDelta, role_delta, empty_delta, content_delta, open_delta, args_delta, Frame,
  chunk, done,
}

-- The text so far, the tool calls at their indices, and the reason that ended it.
pub record Received : Type 0 where
  pub text : String
  pub calls : List ToolCall
  pub finish : Option String

abbrev pub nothing : Received
nothing = record { text = ""; calls = []; finish = none }

abbrev pub blank_call : ToolCall
blank_call = record { id = ""; name = ""; arguments = "" }

-- A call is put at its index: one that is there already is overwritten, except that its arguments are
-- kept, and an index that is skipped stays blank.
abbrev pub open_at : ℕ → String → String → String → List ToolCall → List ToolCall
open_at zero id name args [] = record { id = id; name = name; arguments = args } ∷ []
open_at zero id name args (call ∷ rest) =
    record { id = id; name = name; arguments = text_append call.arguments args } ∷ rest
open_at (suc i) id name args [] = blank_call ∷ open_at i id name args []
open_at (suc i) id name args (call ∷ rest) = call ∷ open_at i id name args rest

-- Arguments go to the call of their index.
abbrev pub extend_at : ℕ → String → List ToolCall → List ToolCall
extend_at i s [] = []
extend_at zero s (call ∷ rest) = record call { arguments = text_append call.arguments s } ∷ rest
extend_at (suc i) s (call ∷ rest) = call ∷ extend_at i s rest

abbrev pub receive_delta : Received → ChunkDelta → Received
receive_delta r role_delta = r
receive_delta r empty_delta = r
receive_delta r (content_delta s) = record r { text = text_append r.text s }
receive_delta r (open_delta index id name args) = record r {
  calls = open_at index id name args r.calls;
}
receive_delta r (args_delta index s) = record r { calls = extend_at index s r.calls }

-- The next free index takes a call to the end.
pub open_at-next :
    (calls : List ToolCall) (id name args : String)
    → open_at (length calls) id name args calls
      ≡ calls ++ record { id = id; name = name; arguments = args } ∷ []
open_at-next [] id name args = refl
open_at-next (call ∷ calls) id name args = ap (◌∷◌ call) (open_at-next calls id name args)

abbrev pub finish_with : Received → Option String → Received
finish_with r none = r
finish_with r (some reason) = record r { finish = some reason }

abbrev pub receive : Received → Frame → Received
receive r (chunk delta finish) = finish_with (receive_delta r delta) finish
receive r done = r

unfoldable pub receive_all : Received → List Frame → Received
receive_all r [] = r
receive_all r (f ∷ rest) = receive_all (receive r f) rest

pub receive_all-append :
    (r : Received) (fs gs : List Frame)
    → receive_all r (fs ++ gs) ≡ receive_all (receive_all r fs) gs
unfolding receive_all
receive_all-append r [] gs = refl
receive_all-append r (f ∷ fs) gs = receive_all-append (receive r f) fs gs

-- A call as a completion tells it: an empty argument text is an empty object.
abbrev pub filled : ToolCall → ToolCall
filled t = record t { arguments = if str_eq t.arguments "" then "{}" else t.arguments }
