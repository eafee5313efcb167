-- ===== src/Server/Limits.antt =====
-- The rate limit: how many requests of a key one window grants.
use mathlib.Core.Path.{subst}
use apiforge.Base.{
  ℕ, ◌+◌, ◌-◌, ◌<◌, ◌≡◌, refl, ap, true, false, List, [], ◌∷◌, arith, leb, if◌then◌else◌, is_pos,
  pos_part, Bool-cases, inl, inr, All, ◌↔◌, ◌&&◌,
}
use apiforge.Base.Text.{Bytes, same_bytes, same_bytes_sound, same_bytes_refl}
use apiforge.Server.{minute, RateLimiter, count_of, set_count, allow}

-- Calls of `allow`, each with its key and its time, and how many of a key's are granted.
pub granted : Bytes → RateLimiter → List (Bytes × ℕ) → ℕ
granted key rl [] = 0
granted key rl ((k, now) ∷ calls) =
    (if same_bytes k key && (allow rl k now).1 then 1 else 0) + granted key (allow rl k now).0 calls

-- How many of the calls are the key's.
abbrev pub asked : Bytes → List (Bytes × ℕ) → ℕ
asked key [] = 0
asked key ((k, now) ∷ calls) = (if same_bytes k key then 1 else 0) + asked key calls

abbrev pub smaller : ℕ → ℕ → ℕ
smaller a b = if leb a b then a else b

-- All times are in the window.
abbrev pub InWindow : RateLimiter → List (Bytes × ℕ) → Type 0
InWindow rl calls = All (λ c. c.1 < rl.window + minute) calls

same_bytes_iff : (s t : Bytes) → (same_bytes s t ≡ true) ↔ (s ≡ t)
same_bytes_iff s t =
    (same_bytes_sound s t, λ e. subst (λ x. same_bytes s x ≡ true) e (same_bytes_refl s))

count_of-set_count :
    (key other : Bytes) (n : ℕ) (counts : List (Bytes × ℕ))
    → count_of other (set_count key n counts)
      ≡ (if same_bytes key other then n else count_of other counts)
unfolding count_of set_count
count_of-set_count key other n [] = refl
count_of-set_count key other n (entry ∷ rest) = ground (
  arith,
  same_bytes_iff entry.0 key,
  same_bytes_iff entry.0 other,
  same_bytes_iff key other,
  count_of-set_count key other n rest,
)

-- Within the window a call counts one more request of its key, and grants it up to the limit.
allow-in_window :
    (rl : RateLimiter) (key : Bytes) (now : ℕ)
    → is_pos rl.rpm ≡ true
    → now < rl.window + minute
    → allow rl key now ≡ (
      record rl { counts = set_count key (count_of key rl.counts + 1) rl.counts },
      leb (count_of key rl.counts + 1) (pos_part rl.rpm),
    )
unfolding allow
allow-in_window rl key now limited early =
    let same : leb minute (now - rl.window) ≡ false = ground arith in rw (limited, same) refl

-- Within one window a key is granted every request it asks for until the limit, together with what
-- was counted before, is reached, and none after that, whatever other keys ask in between.
pub granted-asked :
    (key : Bytes) (rl : RateLimiter) (calls : List (Bytes × ℕ))
    → is_pos rl.rpm ≡ true
    → InWindow rl calls
    → granted key rl calls ≡ smaller (asked key calls) (pos_part rl.rpm - count_of key rl.counts)
unfolding granted
granted-asked key rl [] limited early = ground arith
granted-asked key rl ((k, now) ∷ calls) limited early =
    let counts = set_count k (count_of k rl.counts + 1) rl.counts in
    let later = granted-asked key (record rl { counts = counts }) calls limited early.1 in
    let counted = count_of-set_count k key (count_of k rl.counts + 1) rl.counts in
    elim (Bool-cases (same_bytes k key)) [
      | inl e ↦
          let same = ap (λ x. count_of x rl.counts) (same_bytes_sound k key e) in
          rw (allow-in_window rl k now limited early.0, later, counted, e) (ground (arith, same))
      | inr e ↦ rw (allow-in_window rl k now limited early.0, later, counted, e) (ground arith)
    ]
