-- ===== src/Auth/Source.antt =====
-- Where an identity that `introspect` of backend/blueash_auth.py returns comes from.
use opportunity_radar.Prelude.{
  ℕ, ◌<◌, ◌≡◌, subst, refl, String, true, false, not, Option, none, some, ltb, ◌==◌, eq_refl,
  if_cases, arith, Text, Dict, lookup, remove, lookup-remove,
}
use opportunity_radar.Auth.{
  Result, done, unauthenticated, unauthorized, unavailable, misconfigured, unexpected, and_then,
  Value,
}
use opportunity_radar.Auth.ReturnPath.{is_empty}
use opportunity_radar.Auth.Portal.{
  Python, Mode, local, portal_handoff, unsupported, PortalSettings, PortalResponse, response_json,
  valid_opaque_value, is_portal,
}
use opportunity_radar.Auth.Identity.{Identity, Session, local_identity}
use opportunity_radar.Auth.Vouched.{Vouched, SoundSession, identity_from_introspection-SoundSession}
use opportunity_radar.Auth.Session.{
  CachedIdentity, Cache, Clocks, found, look, says_active, vouch, ask, remember, looked, is_local,
  introspect, revoke,
}

-- What the first section leaves: a live entry, or no entry.
data Look (key : String) (now : ℕ) (d : Cache) : Option Identity × Cache → Type 0 where
  hit :
      (c : CachedIdentity)
      → lookup key d ≡ some c
      → now < c.expires_at_monotonic
      → Look key now d (some c.identity, d)
  miss : Look key now d (none, remove key d)

found-Look :
    (key : String) (now : ℕ) (d : Cache) (o : Option CachedIdentity)
    → lookup key d ≡ o
    → Look key now d (found key now o d)
unfolding found
found-Look key now d none e = miss
found-Look key now d (some c) e =
    if_cases (Look key now d) (ltb now c.expires_at_monotonic) (λ h. hit c e (ground arith))
      (λ _. miss)

look-Look : (key : String) (now : ℕ) (d : Cache) → Look key now d (look key now d)
unfolding look
look-Look key now d = found-Look key now d (lookup key d) refl

-- How an identity can come out of `introspect`: as the local one, out of the cache before its
-- entry expires, or as the portal vouches for it.
pub data Source (py : Python) (settings : PortalSettings) (token : Text) (w : Clocks)
    (answer : Option PortalResponse) (cache : Cache) : Identity → Type 0 where
  developer : settings.mode ≡ local → Source py settings token w answer cache local_identity
  cached :
      (c : CachedIdentity)
      → lookup (py.sha256 token) cache ≡ some c
      → w.monotonic_before < c.expires_at_monotonic
      → Source py settings token w answer cache c.identity
  vouched :
      (s : Session)
      → ask py settings w.wall answer ≡ done s
      → Vouched settings w.wall s
      → Source py settings token w answer cache s.0

remember-Vouched :
    (settings : PortalSettings) (key : String) (w : Clocks) (r : Result Session) (d : Cache)
    (i : Identity)
    → (remember settings key w r d).0 ≡ done i
    → (s : Session) × (r ≡ done s) × (s.0 ≡ i)
unfolding remember
remember-Vouched settings key w (done s) d i e = (s, refl, cc e)
remember-Vouched settings key w unauthenticated d i e = cc e
remember-Vouched settings key w unauthorized d i e = cc e
remember-Vouched settings key w unavailable d i e = cc e
remember-Vouched settings key w misconfigured d i e = cc e
remember-Vouched settings key w unexpected d i e = cc e

and_then-SoundSession :
    (py : Python) (settings : PortalSettings) (now : ℕ) (payload : Result (Dict Value))
    → SoundSession py settings now (and_then payload (vouch py settings now))
unfolding and_then vouch
and_then-SoundSession py settings now (done d) =
    if_cases (SoundSession py settings now) (says_active (lookup "active" d))
      (λ _. identity_from_introspection-SoundSession py settings now d) (λ _. tt)
and_then-SoundSession py settings now r = tt

-- What the portal vouches for passes the tests of the claims.
ask-SoundSession :
    (py : Python) (settings : PortalSettings) (now : ℕ) (answer : Option PortalResponse)
    → SoundSession py settings now (ask py settings now answer)
unfolding ask
ask-SoundSession py settings now none = tt
ask-SoundSession py settings now (some r) =
    if_cases (SoundSession py settings now) (r.status_code == 403) (λ _. tt)
      (λ _.
        if_cases (SoundSession py settings now) (not (r.status_code == 200)) (λ _. tt)
          (λ _. and_then-SoundSession py settings now (response_json r)))

done_injective : {i j : Identity} → done i ≡ done j → i ≡ j
done_injective e = cc e

is_local-lem : (m : Mode) → is_local m ≡ true → m ≡ local
unfolding is_local
is_local-lem local h = refl
is_local-lem portal_handoff h = cc h
is_local-lem unsupported h = cc h

module _ (py : Python) (settings : PortalSettings) (token : Text) (w : Clocks)
    (answer : Option PortalResponse) (others : Cache → Cache) (cache : Cache) where
  abbrev Explained : Result Identity × Cache → Type 0
  Explained r = (i : Identity) → r.0 ≡ done i → Source py settings token w answer cache i

  asked-Explained :
      (d : Cache)
      → Explained (remember settings (py.sha256 token) w (ask py settings w.wall answer) d)
  asked-Explained d i e =
      let (s, asked, same) =
        remember-Vouched settings (py.sha256 token) w (ask py settings w.wall answer) d i e in
      subst (Source py settings token w answer cache) same (
        vouched s asked (
          subst (SoundSession py settings w.wall) asked
            (ask-SoundSession py settings w.wall answer)))

  looked-Explained :
      (r : Option Identity × Cache)
      → Look (py.sha256 token) w.monotonic_before cache r
      → Explained (looked py settings (py.sha256 token) w answer others r)
  unfolding looked
  looked-Explained _ (hit c e live) i same =
      subst (Source py settings token w answer cache) (done_injective same) (cached c e live)
  looked-Explained _ miss i e = asked-Explained (others (remove (py.sha256 token) cache)) i e

  -- An identity that `introspect` returns has a reason: the local mode; or a cache entry for the
  -- token, before it expires; or the portal's answer to this very call, whose claims were tested:
  -- the role is one of the two known, and the session's idle and absolute expiry lie ahead and
  -- within the configured bounds and a minute. This holds whatever other threads do to the cache.
  pub introspect-Source :
      (i : Identity)
      → (introspect py settings token w answer others cache).0 ≡ done i
      → Source py settings token w answer cache i
  unfolding introspect
  introspect-Source =
      if_cases Explained (not settings.is_valid) (λ _ i e. cc e)
        (λ _.
          if_cases Explained (is_local settings.mode)
            (λ h i e.
              subst (Source py settings token w answer cache) (done_injective e)
                (developer (is_local-lem settings.mode h)))
            (λ _.
              if_cases Explained (not (is_portal settings.mode)) (λ _ i e. cc e)
                (λ _.
                  if_cases Explained (not (valid_opaque_value token)) (λ _ i e. cc e)
                    (λ _.
                      looked-Explained (look (py.sha256 token) w.monotonic_before cache)
                        (look-Look (py.sha256 token) w.monotonic_before cache)))))

revoke-remove :
    (py : Python) (settings : PortalSettings) (token : Text) (answer : Option PortalResponse)
    (d : Cache)
    → settings.is_valid ≡ true
    → settings.mode ≡ portal_handoff
    → is_empty token ≡ false
    → (revoke py settings token answer d).1 ≡ remove (py.sha256 token) d
unfolding revoke is_local
revoke-remove py settings token answer d valid mode some_token = rw (valid, mode, some_token) refl

Source-vouched :
    (py : Python) (settings : PortalSettings) (token : Text) (w : Clocks)
    (answer : Option PortalResponse) (d : Cache) (i : Identity)
    → settings.mode ≡ portal_handoff
    → lookup (py.sha256 token) d ≡ none
    → Source py settings token w answer d i
    → (s : Session) × (ask py settings w.wall answer ≡ done s) × (s.0 ≡ i)
Source-vouched py settings token w answer d _ mode gone (developer h) = cc
Source-vouched py settings token w answer d _ mode gone (cached c e live) = cc
Source-vouched py settings token w answer d _ mode gone (vouched s asked v) = (s, asked, refl)

-- `revoke` of a token, in the portal mode, leaves no cache entry for it.
revoke-forgets :
    (py : Python) (settings : PortalSettings) (token : Text) (answer : Option PortalResponse)
    (d : Cache)
    → settings.is_valid ≡ true
    → settings.mode ≡ portal_handoff
    → is_empty token ≡ false
    → lookup (py.sha256 token) (revoke py settings token answer d).1 ≡ none
revoke-forgets py settings token answer d valid mode some_token =
    rw (revoke-remove py settings token answer d valid mode some_token)
      (rw (lookup-remove (py.sha256 token) (py.sha256 token) d, eq_refl (py.sha256 token)) refl)

-- After `revoke` of a token, in the portal mode and whatever the portal answers to that and whatever
-- the cache held, `introspect` on the cache that is left returns an identity only if the portal
-- vouches for the token again.
pub introspect-revoke :
    (py : Python) (settings : PortalSettings) (token : Text) (answer : Option PortalResponse)
    (d : Cache) (w : Clocks) (later : Option PortalResponse) (others : Cache → Cache) (i : Identity)
    → settings.is_valid ≡ true
    → settings.mode ≡ portal_handoff
    → is_empty token ≡ false
    → (introspect py settings token w later others (revoke py settings token answer d).1).0 ≡ done i
    → (s : Session) × (ask py settings w.wall later ≡ done s) × (s.0 ≡ i)
introspect-revoke py settings token answer d w later others i valid mode some_token e =
    Source-vouched py settings token w later (revoke py settings token answer d).1 i mode
      (revoke-forgets py settings token answer d valid mode some_token)
      (introspect-Source py settings token w later others (revoke py settings token answer d).1 i e)
