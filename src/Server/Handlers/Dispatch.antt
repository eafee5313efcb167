-- ===== src/Server/Handlers/Dispatch.antt =====
-- Which provider answers a request.
use mathlib.Core.Path.{subst}
use apiforge.Base.{
  ◌≡◌, ◌⊎◌, inl, inr, String, true, Option, none, some, arith, str_eq, eq_iff, Bool-cases,
  Option-cases,
}
use apiforge.Base.Text.{Bytes}
use apiforge.Registry.{Provider, Registry, find_by_model, has_capability}
use apiforge.Registry.Routing.{IsFirst, serves, Searches, find_by_model-Searches}
use apiforge.Server.Handlers.{answered, RequestContext, called, dispatch_to, dispatch}

pub called-answered {ℓ} : {R : Type ℓ} (o : Option R) (r : R) → called o ≡ answered r → o ≡ some r
unfolding called
called-answered none r e = cc
called-answered (some x) r e = ground arith

module _ {ℓ} {R : Type ℓ} (extract_model : Bytes → String)
    (fn : Provider → RequestContext → Bytes → Option R) where
  dispatch_to-answered :
      (need : String) (rctx : RequestContext) (body : Bytes) (p : Provider) (r : R)
      → dispatch_to extract_model fn need rctx body p ≡ answered r
      → ((need ≡ "") ⊎ (has_capability p need ≡ true)) × (fn p rctx body ≡ some r)
  unfolding dispatch_to
  dispatch_to-answered need rctx body p r e = elim (Bool-cases (str_eq need "")) [
    | inl plain ↦
        (inl ((eq_iff need "").0 plain), called-answered (fn p rctx body) r (rw plain at e))
    | inr special ↦ elim (Bool-cases (has_capability p need)) [
      | inl able ↦ (inr able, called-answered (fn p rctx body) r (rw (special, able) at e))
      | inr unable ↦ absurd (ground (arith, rw (special, unable) at e))
    ]
  ]

  -- An answer comes only from the first ready provider, in the order of registration, that owns the
  -- body's model, and only if that provider has the capability that the route needs, where it needs
  -- one; and it is what that provider's call returned for this body.
  pub dispatch-answered :
      (reg : Registry) (need : String) (rctx : RequestContext) (body : Bytes) (r : R)
      → dispatch extract_model fn reg need rctx (some body) ≡ answered r
      → (p : Provider) × IsFirst (serves (extract_model body)) reg.providers p
        × ((need ≡ "") ⊎ (has_capability p need ≡ true))
        × (fn p rctx body ≡ some r)
  unfolding dispatch
  dispatch-answered reg need rctx body r e = elim (Bool-cases (str_eq (extract_model body) "")) [
    | inl missing ↦ absurd (ground (arith, rw missing at e))
    | inr named ↦ elim (Option-cases (find_by_model reg (extract_model body))) [
      | inl unowned ↦ absurd (ground (arith, rw (named, unowned) at e))
      | inr (p, owned) ↦
          let first =
            subst (Searches (serves (extract_model body)) reg.providers) owned
              (find_by_model-Searches reg (extract_model body)) in
          let done = dispatch_to-answered need rctx body p r (rw (named, owned) at e) in
          (p, first, done.0, done.1)
    ]
  ]
