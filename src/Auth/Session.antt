-- ===== src/Auth/Session.antt =====
-- `introspect`, its cache of identities, and `revoke`, of backend/blueash_auth.py. Points in time,
-- of the wall clock and of the monotonic clock, are in milliseconds.
use opportunity_radar.Prelude.{
  ℕ, ◌+◌, ◌-◌, ◌*◌, min, String, Bool, true, false, not, ◌&&◌, ◌||◌, Option, none, some, [], ◌∷◌,
  ltb, leb, ◌==◌, if◌then◌else◌, Text, length, Dict, lookup, put, remove,
}
use opportunity_radar.Auth.{
  Result, done, unauthenticated, unauthorized, unavailable, misconfigured, unexpected, and_then,
  Value, boolean,
}
use opportunity_radar.Auth.ReturnPath.{is_empty}
use opportunity_radar.Auth.Portal.{
  Python, Mode, local, PortalSettings, PortalResponse, response_json, valid_opaque_value, is_portal,
}
use opportunity_radar.Auth.Identity.{Identity, Session, local_identity, identity_from_introspection}

pub record CachedIdentity : Type 0 where
  pub identity : Identity
  pub expires_at_monotonic : ℕ

abbrev pub Cache : Type 0
Cache = Dict CachedIdentity

abbrev pub max_cached : ℕ
max_cached = 2_048

-- The clocks during one call: the monotonic one before the cache is read, the wall clock when the
-- claims are tested and when the lifetime is computed, and the monotonic one after that.
pub record Clocks : Type 0 where
  pub monotonic_before : ℕ
  pub wall : ℕ
  pub wall_after : ℕ
  pub monotonic_after : ℕ

-- The first lock section: a live entry is the answer; any other is dropped.
unfoldable pub found : String → ℕ → Option CachedIdentity → Cache → Option Identity × Cache
found key now none cache = (none, remove key cache)
found key now (some c) cache =
    if ltb now c.expires_at_monotonic then (some c.identity, cache) else (none, remove key cache)

unfoldable pub look : String → ℕ → Cache → Option Identity × Cache
unfolding found
look key now cache = found key now (lookup key cache) cache

-- The key whose entry expires first; the first of several.
unfoldable pub earlier : String → CachedIdentity → Option (String × ℕ) → String × ℕ
earlier k c none = (k, c.expires_at_monotonic)
earlier k c (some (j, e)) =
    if leb c.expires_at_monotonic e then (k, c.expires_at_monotonic) else (j, e)

unfoldable pub oldest : Cache → Option (String × ℕ)
unfolding earlier
oldest [] = none
oldest ((k, c) ∷ rest) = some (earlier k c (oldest rest))

unfoldable pub drop_oldest : Option (String × ℕ) → Cache → Cache
drop_oldest none cache = cache
drop_oldest (some (k, e)) cache = remove k cache

-- The second lock section.
unfoldable pub has_key : Option CachedIdentity → Bool
has_key none = false
has_key (some c) = true

unfoldable pub keep : String → CachedIdentity → Cache → Cache
unfolding drop_oldest oldest has_key
keep key c cache =
    let full = not (has_key (lookup key cache)) && leb max_cached (length cache) in
    put key c (if full then drop_oldest (oldest cache) cache else cache)

unfoldable pub success_ttl : PortalSettings → (now idle absolute : ℕ) → ℕ
success_ttl settings now idle absolute =
    min (1_000 * settings.introspection_cache_seconds) (min (idle - now) (absolute - now))

unfoldable pub says_active : Option Value → Bool
says_active (some (boolean b)) = b
says_active v = false

unfoldable pub vouch : Python → PortalSettings → ℕ → Dict Value → Result Session
unfolding says_active identity_from_introspection
vouch py settings now payload =
    if says_active (lookup "active" payload)
    then identity_from_introspection py settings now payload
    else unauthenticated

-- What the portal's answer comes to.
unfoldable pub ask : Python → PortalSettings → ℕ → Option PortalResponse → Result Session
unfolding vouch response_json and_then
ask py settings now none = unavailable
ask py settings now (some r) =
    if r.status_code == 403
    then unauthorized
    else if not (r.status_code == 200)
    then unavailable
    else and_then (response_json r) (vouch py settings now)

-- After the answer: an identity that has time left is kept.
unfoldable pub remember :
    PortalSettings → String → Clocks → Result Session → Cache → Result Identity × Cache
unfolding success_ttl keep
remember settings key w (done (identity, idle, absolute)) cache =
    let ttl = success_ttl settings w.wall_after idle absolute in
    (
      done identity,
      (if ltb 0 ttl
          then keep key
              record { identity = identity; expires_at_monotonic = w.monotonic_after + ttl } cache
          else cache),
    )
remember settings key w unauthenticated cache = (unauthenticated, cache)
remember settings key w unauthorized cache = (unauthorized, cache)
remember settings key w unavailable cache = (unavailable, cache)
remember settings key w misconfigured cache = (misconfigured, cache)
remember settings key w unexpected cache = (unexpected, cache)

-- `others` is what other threads do to the cache while the portal answers.
unfoldable pub looked :
    Python
    → PortalSettings
    → String
    → Clocks
    → (answer : Option PortalResponse) → (others : Cache → Cache) → Option Identity × Cache
    → Result Identity × Cache
unfolding ask remember
looked py settings key w answer others (some identity, cache) = (done identity, cache)
looked py settings key w answer others (none, cache) =
    remember settings key w (ask py settings w.wall answer) (others cache)

unfoldable pub is_local : Mode → Bool
is_local local = true
is_local m = false

-- `introspect`
unfoldable pub introspect :
    Python
    → PortalSettings
    → (token : Text) → Clocks
    → (answer : Option PortalResponse) → (others : Cache → Cache) → Cache
    → Result Identity × Cache
unfolding look looked is_portal is_local valid_opaque_value
introspect py settings token w answer others cache =
    if not settings.is_valid
    then (misconfigured, cache)
    else if is_local settings.mode
    then (done local_identity, cache)
    else if not (is_portal settings.mode)
    then (misconfigured, cache)
    else if not (valid_opaque_value token)
    then (unauthenticated, cache)
    else looked py settings (py.sha256 token) w answer others
        (look (py.sha256 token) w.monotonic_before cache)

unfoldable pub revoke_answer : Option PortalResponse → Result Unit
revoke_answer none = unavailable
revoke_answer (some r) =
    if r.status_code == 403
    then unauthorized
    else if not (r.status_code == 204)
    then unavailable
    else done tt

-- `revoke`
unfoldable pub revoke :
    Python
    → PortalSettings
    → (token : Text) → (answer : Option PortalResponse) → Cache
    → Result Unit × Cache
unfolding revoke_answer is_local is_empty valid_opaque_value
revoke py settings token answer cache =
    if not settings.is_valid
    then (misconfigured, cache)
    else if is_local settings.mode || is_empty token
    then (done tt, cache)
    else (
      (if valid_opaque_value token then revoke_answer answer else done tt),
      remove (py.sha256 token) cache,
    )
