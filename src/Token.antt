-- ===== src/Token.antt =====
-- internal/token/token.go: the token manager of one credential file. A credential source is a record
-- of its four operations on a state `S` that holds the source's state and whatever of the outside
-- world (the file, the clock, the network) they read or change; time passes where a read or a refresh
-- changes it, and what other callers and the clock do between two calls of one manager is not modelled. `singleflight.Group.Do` is a third
-- party's: here one caller runs the function, and the callers that wait for it share its answer.
pub mod Freshness
mod Tests
use apiforge.Base.{ℕ, String, Bool, true, false, Option, none, some, List, [], ◌∷◌, if◌then◌else◌}

pub data Result {ℓ} (A : Type ℓ) : Type ℓ where
  ok : A → Result A
  err : String → Result A

pub record Source (S : Type 0) : Type 0 where
  pub read : S → S × Option String
  pub token : S → String
  pub fresh : S → Bool
  pub refresh : S → S × Result String

pub record Manager (S : Type 0) : Type 0 where
  pub state : S
  pub loaded : Bool

module _ {S : Type 0} (src : Source S) where
  abbrev pub after_read : S × Option String → Manager S × Option String
  after_read (s, none) = (record { state = s; loaded = true }, none)
  after_read (s, some e) = (record { state = s; loaded = false }, some e)

  unfoldable pub ensure_loaded : Manager S → Manager S × Option String
  ensure_loaded m = if m.loaded then (m, none) else after_read (src.read m.state)

  abbrev pub after_reread : S × Option String → S × Result String
  after_reread (s, some e) = (s, err e)
  after_reread (s, none) = if src.fresh s then (s, ok (src.token s)) else src.refresh s

  -- The function that `AccessToken` hands to the single-flight group.
  unfoldable pub refresh_once : S → S × Result String
  refresh_once s = after_reread (src.read s)

  -- The part of `AccessToken` after a successful load, run by one caller.
  abbrev pub fetch : Manager S → Manager S × Result String
  fetch m =
      if src.fresh m.state
      then (m, ok (src.token m.state))
      else let (s, answer) = refresh_once m.state in (record m { state = s }, answer)

  abbrev pub when_loaded : Manager S × Option String → Manager S × Result String
  when_loaded (m, some e) = (m, err e)
  when_loaded (m, none) = fetch m

  unfoldable pub access_token : Manager S → Manager S × Result String
  unfolding ensure_loaded refresh_once
  access_token m = when_loaded (ensure_loaded m)
