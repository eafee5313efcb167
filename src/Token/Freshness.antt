-- ===== src/Token/Freshness.antt =====
-- What an access token that is handed out is.
use apiforge.Base.{
  String, true, false, Option, none, some, ◌≡◌, refl, ◌⊎◌, inl, inr, if◌then◌else◌, Bool-cases,
}
use apiforge.Token.{
  Result, ok, err, Source, Manager, ensure_loaded, refresh_once, access_token, after_read,
  after_reread, fetch, when_loaded,
}

-- The answer is the current token of a fresh state, or the result of a refresh of a state that was
-- not fresh.
abbrev pub IsCurrent : {S : Type 0} → Source S → S → Result String → Type 0
IsCurrent src s (err e) = Unit
IsCurrent {S} src s (ok t) =
    ((src.fresh s ≡ true) × (t ≡ src.token s))
    ⊎ ((stale : S) × (src.fresh stale ≡ false) × (src.refresh stale ≡ (s, ok t)))

module _ {S : Type 0} (src : Source S) where
  refresh_once-IsCurrent : (s : S) → IsCurrent src (refresh_once src s).0 (refresh_once src s).1
  unfolding refresh_once
  refresh_once-IsCurrent s = by_read (src.read s)
    where
      by_refresh :
          (s' : S) (r : S × Result String)
          → src.fresh s' ≡ false
          → src.refresh s' ≡ r
          → IsCurrent src r.0 r.1
      by_refresh s' (s'', ok t) stale e = inr (s', stale, e)
      by_refresh s' (s'', err x) stale e = tt

      by_fresh :
          (s' : S)
          → let r = (if src.fresh s' then (s', ok (src.token s')) else src.refresh s') in
            IsCurrent src r.0 r.1
      by_fresh s' = elim (Bool-cases (src.fresh s')) [
        | inl e ↦ rw e (inl (e, refl))
        | inr e ↦ rw e (by_refresh s' (src.refresh s') e refl)
      ]

      by_read :
          (r : S × Option String) → IsCurrent src (after_reread src r).0 (after_reread src r).1
      by_read (s', some e) = tt
      by_read (s', none) = by_fresh s'

  ensure_loaded-loaded : (m : Manager S) → m.loaded ≡ true → ensure_loaded src m ≡ (m, none)
  unfolding ensure_loaded
  ensure_loaded-loaded m e = rw e refl

  ensure_loaded-unloaded :
      (m : Manager S) → m.loaded ≡ false → ensure_loaded src m ≡ after_read src (src.read m.state)
  unfolding ensure_loaded
  ensure_loaded-unloaded m e = rw e refl

  -- Whatever the source does, a token that `access_token` answers with is either the current token of
  -- the state it leaves, which is fresh, or the result of refreshing a state that was not fresh.
  pub access_token-IsCurrent :
      (m : Manager S) → let r = access_token src m in IsCurrent src r.0.state r.1
  unfolding access_token
  access_token-IsCurrent m = elim (Bool-cases m.loaded) [
    | inl e ↦ rw (ensure_loaded-loaded m e) (by_fetch m)
    | inr e ↦ rw (ensure_loaded-unloaded m e) (by_load (src.read m.state))
  ]
    where
      by_fetch : (m' : Manager S) → let r = fetch src m' in IsCurrent src r.0.state r.1
      by_fetch m' = elim (Bool-cases (src.fresh m'.state)) [
        | inl e ↦ rw e (inl (e, refl))
        | inr e ↦ rw e (refresh_once-IsCurrent m'.state)
      ]

      by_load :
          (r : S × Option String)
          → let r' = when_loaded src (after_read src r) in IsCurrent src r'.0.state r'.1
      by_load (s, none) = by_fetch (record { state = s; loaded = true })
      by_load (s, some e) = tt
