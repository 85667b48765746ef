-- ===== src/Server/Callback.antt =====
-- `auth_callback_endpoint` of server.py: the browser comes back from the portal.
use opportunity_radar.Prelude.{
  ℕ, Bool, true, false, not, ◌||◌, Option, none, some, [], ltb, ◌==◌, if◌then◌else◌, Text, codes,
  text_eq, length,
}
use opportunity_radar.Auth.{
  Urllib, Result, done, unauthenticated, unauthorized, unavailable, misconfigured, unexpected,
}
use opportunity_radar.Auth.ReturnPath.{is_empty, safe_return_path}
use opportunity_radar.Auth.Handoff.{Codec, Settings, HandoffAttempt, consume_handoff_cookie}
use opportunity_radar.Auth.Portal.{Python, PortalSettings, PortalResponse}
use opportunity_radar.Auth.Exchange.{PortalExchange, exchange, session_max_age}
use opportunity_radar.Auth.Identity.{Identity}
use opportunity_radar.Auth.Session.{Cache, Clocks, introspect, revoke}

-- The query: the values that are taken, and how often each name occurs.
pub record Query : Type 0 where
  pub code : Text
  pub state : Text
  pub error : Text
  pub codes_given : ℕ
  pub states_given : ℕ
  pub errors_given : ℕ

-- The configuration, the clocks and the portal's three possible answers.
pub record World : Type 0 where
  pub codec : Codec
  pub urls : Urllib
  pub settings : Settings
  pub python : Python
  pub portal : PortalSettings
  pub seconds : ℕ
  pub milliseconds : ℕ
  pub clocks : Clocks
  pub exchange_answer : Option PortalResponse
  pub introspect_answer : Option PortalResponse
  pub revoke_answer : Option PortalResponse
  pub others : Cache → Cache

-- A redirect: where to, the value of `auth` that is put into its query, the session cookie with its
-- lifetime, and whether the handoff cookie is cleared.
pub record Reply : Type 0 where
  pub destination : Text
  pub auth_state : Option Text
  pub session : Option (Text × ℕ)
  pub clears_handoff : Bool

-- The redirect of every failure.
unfoldable pub failure : Text → Text → Reply
failure destination auth_state = record {
  destination = destination;
  auth_state = some auth_state;
  session = none;
  clears_handoff = true;
}

xor : Bool → Bool → Bool
xor true b = not b
xor false b = b

unfoldable pub is_invalid_shape : Query → Bool
unfolding xor is_empty
is_invalid_shape q =
    not (q.states_given == 1)
    || ltb 512 (length q.state)
    || ltb 4_096 (length q.code)
    || ltb 64 (length q.error)
    || ltb 1 (q.codes_given)
    || ltb 1 (q.errors_given)
    || not (xor (is_empty q.code) (is_empty q.error))

error_state : Text → Text
error_state error =
    if text_eq error (codes "access_denied")
    then codes "denied"
    else if text_eq error (codes "temporarily_unavailable")
    then codes "unavailable"
    else codes "failed"

-- What is returned, if nothing unexpected is raised, and the cache.
abbrev pub Ending : Type 0
Ending = Option Reply × Cache

-- A rejected token is revoked first; the three expected errors of that are only logged.
unfoldable pub revoked : Reply → Result Unit × Cache → Ending
revoked r (done x, cache) = (some r, cache)
revoked r (unauthorized, cache) = (some r, cache)
revoked r (unavailable, cache) = (some r, cache)
revoked r (misconfigured, cache) = (some r, cache)
revoked r (unauthenticated, cache) = (none, cache)
revoked r (unexpected, cache) = (none, cache)

module _ (w : World) (attempt : HandoffAttempt) where
  unfoldable pub reject : (token auth_state : Text) → Cache → Ending
  unfolding revoked failure revoke
  reject token auth_state cache =
      revoked (failure attempt.return_path auth_state)
        (revoke w.python w.portal token w.revoke_answer cache)

  unfoldable pub signed_in : PortalExchange → Reply
  signed_in e = record {
    destination = attempt.return_path;
    auth_state = none;
    session = some (e.access_token, session_max_age w.portal e.expires_in);
    clears_handoff = true;
  }

  unfoldable pub after_introspect : PortalExchange → Result Identity × Cache → Ending
  unfolding reject signed_in
  after_introspect e (done i, cache) = (some (signed_in e), cache)
  after_introspect e (unauthorized, cache) = reject e.access_token (codes "denied") cache
  after_introspect e (unavailable, cache) = reject e.access_token (codes "unavailable") cache
  after_introspect e (unauthenticated, cache) = reject e.access_token (codes "failed") cache
  after_introspect e (misconfigured, cache) = reject e.access_token (codes "failed") cache
  after_introspect e (unexpected, cache) = (none, cache)

  unfoldable pub after_exchange : Result PortalExchange → Cache → Ending
  unfolding after_introspect failure introspect
  after_exchange (done e) cache =
      after_introspect e
        (introspect w.python w.portal e.access_token w.clocks w.introspect_answer w.others cache)
  after_exchange unauthorized cache = (some (failure attempt.return_path (codes "denied")), cache)
  after_exchange unavailable cache =
      (some (failure attempt.return_path (codes "unavailable")), cache)
  after_exchange unauthenticated cache =
      (some (failure attempt.return_path (codes "failed")), cache)
  after_exchange misconfigured cache = (some (failure attempt.return_path (codes "failed")), cache)
  after_exchange unexpected cache = (none, cache)

  unfoldable pub after_consume : Query → Cache → Ending
  unfolding after_exchange error_state exchange
  after_consume q cache =
      if not (is_empty q.error)
      then (some (failure attempt.return_path (error_state q.error)), cache)
      else if is_empty q.code
      then (some (failure attempt.return_path (codes "failed")), cache)
      else after_exchange
          (exchange w.python w.portal q.code attempt.code_verifier w.exchange_answer w.milliseconds)
          cache

unfoldable pub consumed : World → Query → Cache → Result HandoffAttempt → Ending
unfolding after_consume failure safe_return_path
consumed w q cache (done attempt) = after_consume w attempt q cache
consumed w q cache unauthenticated =
    (some (failure (safe_return_path w.urls w.settings.base []) (codes "failed")), cache)
consumed w q cache other = (none, cache)

-- `auth_callback_endpoint`
unfoldable pub auth_callback_endpoint : World → (cookie : Text) → Query → Cache → Ending
unfolding is_invalid_shape consumed consume_handoff_cookie
auth_callback_endpoint w cookie q cache =
    if is_invalid_shape q
    then (some (failure (safe_return_path w.urls w.settings.base []) (codes "failed")), cache)
    else consumed w q cache
        (consume_handoff_cookie w.codec w.urls w.settings cookie q.state w.seconds)
