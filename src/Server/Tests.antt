-- ===== src/Server/Tests.antt =====
-- The gates and the handlers on small requests.
use apiforge.Server.Upstream.{more, last, Response, write_upstream}
use apiforge.Server.Upstream.Relaying.{Passes, Keeps, sent, joined_bytes, write_upstream-Passes}
use apiforge.Base.{Bool, All}
use apiforge.Base.{
  ℕ, ◌-◌, ◌≡◌, ◌↔◌, ◌⊎◌, refl, inl, inr, String, true, false, Option, some, List, [], ◌∷◌, arith,
  pos,
}
use apiforge.Base.Text.{Bytes, codes, trim_space, trim_left, trim_right, cut_prefix, same_bytes}
use apiforge.Registry.{
  Provider, Registry, register, empty, find_from, has_capability_in, has_capability,
}
use apiforge.Registry.Routing.{IsFirst, serves}
use apiforge.Server.{
  Request, Config, handed_on, refused, bearer, allow, rate_key, RateLimiter, new_rate_limiter,
  count_of, serve_v1, any_from, serve_admin,
}
use apiforge.Server.Gates.{
  IsClient, IsAdministrator, Among-any_from, serve_v1-handed_on, serve_admin-handed_on,
  serve_v1-refused,
}
use apiforge.Server.Limits.{granted, asked, smaller, granted-asked}
use apiforge.Server.Handlers.{RequestContext, called, dispatch_to, dispatch}
use apiforge.Server.Handlers.Dispatch.{dispatch-answered}

abbrev cfg : Config
cfg = record { api_keys = codes "k1" ∷ codes "k2" ∷ []; admin_token = codes "root" }

-- A request with a bearer token.
abbrev asking : String → Request
asking authorization = record {
  authorization = codes authorization;
  api_key = [];
  remote_addr = codes "10.0.0.7";
}

abbrev limiter : RateLimiter
limiter = new_rate_limiter (pos 2) 1000

serve_v1-handed_on_example : ((serve_v1 cfg limiter (asking "Bearer k2 ") 1001).1 ≡ handed_on) ↔ (
    IsClient cfg (asking "Bearer k2 ")
    × ((allow limiter (rate_key (asking "Bearer k2 ")) 1001).1 ≡ true))
serve_v1-handed_on_example = serve_v1-handed_on cfg limiter (asking "Bearer k2 ") 1001

serve_admin-handed_on_example :
    ((serve_admin cfg limiter (asking "Bearer root") 1001).1 ≡ handed_on) ↔ (
      IsAdministrator cfg (asking "Bearer root")
      × ((allow limiter (rate_key (asking "Bearer root")) 1001).1 ≡ true))
serve_admin-handed_on_example = serve_admin-handed_on cfg limiter (asking "Bearer root") 1001

k3-stranger : ¬ IsClient cfg (asking "Bearer k3")
unfolding bearer cut_prefix trim_space trim_left trim_right any_from same_bytes
k3-stranger (inl e) = cc
k3-stranger (inr a) =
    let found : any_from false cfg.api_keys (bearer (asking "Bearer k3")) ≡ true =
      Among-any_from false a in
    cc

serve_v1-refused_example :
    serve_v1 cfg limiter (asking "Bearer k3") 1001
    ≡ (limiter, refused 401 "invalid_request_error" "Invalid API key.")
serve_v1-refused_example = serve_v1-refused cfg limiter (asking "Bearer k3") 1001 k3-stranger

abbrev calls : List (Bytes × ℕ)
calls = (codes "k1", 1001) ∷ (codes "k2", 1002) ∷ (codes "k1", 1003) ∷ (codes "k1", 1004) ∷ []

granted-asked_example :
    granted (codes "k1") limiter calls
    ≡ smaller (asked (codes "k1") calls) (2 - count_of (codes "k1") [])
granted-asked_example =
    granted-asked (codes "k1") limiter calls refl
      (omega arith, (omega arith, (omega arith, (omega arith, tt))))

abbrev grok : Provider
grok = record {
  id = "grok";
  capabilities = "images" ∷ [];
  is_ready = true;
  models = [];
  owns_model = λ m. true;
}

abbrev registry : Registry
registry = register empty grok

abbrev plain : RequestContext
plain = record { request_id = ""; account_pin = ""; session = "" }

dispatch-answered_example :
    (p : Provider) × IsFirst (serves "grok-4") registry.providers p
    × ((◌≡◌ {A = String} "images" "") ⊎ (has_capability p "images" ≡ true))
    × (◌≡◌ {A = Option String} (some p.id) (some "grok"))
unfolding dispatch dispatch_to called find_from has_capability_in register
dispatch-answered_example =
    dispatch-answered (λ body. "grok-4") (λ p rctx body. some p.id) registry "images" plain []
      "grok" refl

abbrev upstream_answer : Response
upstream_answer = record {
  status = 200;
  headers =
      (codes "set-cookie", codes "a" ∷ []) ∷ (codes "Content-Type", codes "text/plain" ∷ []) ∷ [];
  body = more (codes "he") ∷ last (codes "llo") ∷ [];
}

abbrev every_write : ℕ → Bool
every_write n = true

write_upstream-Passes_example :
    let w = write_upstream every_write upstream_answer in
    (w.status ≡ 200)
    × All Passes w.headers
    × All (Keeps w.headers) upstream_answer.headers
    × (joined_bytes w.body ≡ sent upstream_answer.body)
write_upstream-Passes_example = write_upstream-Passes every_write upstream_answer (λ k. refl)
