-- ===== src/Token/Tests.antt =====
-- The token manager on a source whose token expires once and is renewed once.
use apiforge.Base.{ℕ, suc, false, none, if◌then◌else◌, ltb}
use apiforge.Token.{ok, Source, Manager, access_token}
use apiforge.Token.Freshness.{IsCurrent, access_token-IsCurrent}

-- The state counts the refreshes; after the first one the token is fresh.
abbrev source : Source ℕ
source = record {
  read = λ s. (s, none);
  token = λ s. if ltb 0 s then "new" else "old";
  fresh = λ s. ltb 0 s;
  refresh = λ s. (suc s, ok "new");
}

abbrev unread : Manager ℕ
unread = record { state = 0; loaded = false }

access_token-IsCurrent_example :
    IsCurrent source (access_token source unread).0.state (access_token source unread).1
access_token-IsCurrent_example = access_token-IsCurrent source unread
