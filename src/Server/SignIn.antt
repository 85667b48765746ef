-- ===== src/Server/SignIn.antt =====
-- When `auth_callback_endpoint` of server.py signs a browser in.
use opportunity_radar.Prelude.{ℕ, ◌≡◌, refl, true, not, Option, none, some, if_cases, Text, codes}
use opportunity_radar.Auth.{
  Result, done, unauthenticated, unauthorized, unavailable, misconfigured, unexpected,
}
use opportunity_radar.Auth.ReturnPath.{is_empty}
use opportunity_radar.Auth.Handoff.{HandoffAttempt, consume_handoff_cookie}
use opportunity_radar.Auth.Exchange.{PortalExchange, exchange, session_max_age}
use opportunity_radar.Auth.Identity.{Identity}
use opportunity_radar.Auth.Session.{Cache, introspect}
use opportunity_radar.Server.Callback.{
  Query, World, Reply, Ending, auth_callback_endpoint, failure, revoked, is_invalid_shape, reject,
  signed_in, after_introspect, after_exchange, after_consume, consumed,
}

-- What is behind a session cookie.
pub record SignedIn (w : World) (cookie : Text) (q : Query) (cache : Cache) (token : Text)
    (max_age : ℕ) : Type 0 where
  pub attempt : HandoffAttempt
  pub exchanged : PortalExchange
  pub identity : Identity
  pub accepted :
      consume_handoff_cookie w.codec w.urls w.settings cookie q.state w.seconds ≡ done attempt
  pub granted :
      exchange w.python w.portal q.code attempt.code_verifier w.exchange_answer w.milliseconds
      ≡ done exchanged
  pub same_token : token ≡ exchanged.access_token
  pub lifetime : max_age ≡ session_max_age w.portal exchanged.expires_in
  pub known :
      (introspect w.python w.portal token w.clocks w.introspect_answer w.others cache).0
      ≡ done identity

-- A session cookie with nothing behind it, or a handoff cookie that stays, is ruled out.
abbrev GoodSession : World → Text → Query → Cache → Option (Text × ℕ) → Type 0
GoodSession w cookie q cache none = Unit
GoodSession w cookie q cache (some (token, max_age)) = SignedIn w cookie q cache token max_age

abbrev pub GoodReply : World → Text → Query → Cache → Option Reply → Type 0
GoodReply w cookie q cache none = Unit
GoodReply w cookie q cache (some r) =
    (r.clears_handoff ≡ true) × GoodSession w cookie q cache r.session

module _ (w : World) (cookie : Text) (q : Query) (cache : Cache) where
  abbrev Good : Ending → Type 0
  Good e = GoodReply w cookie q cache e.0

  revoked-Good :
      (destination auth_state : Text) (r : Result Unit × Cache)
      → Good (revoked (failure destination auth_state) r)
  unfolding revoked failure
  revoked-Good destination auth_state (done x, c) = (refl, tt)
  revoked-Good destination auth_state (unauthorized, c) = (refl, tt)
  revoked-Good destination auth_state (unavailable, c) = (refl, tt)
  revoked-Good destination auth_state (misconfigured, c) = (refl, tt)
  revoked-Good destination auth_state (unauthenticated, c) = tt
  revoked-Good destination auth_state (unexpected, c) = tt

  module _ (attempt : HandoffAttempt)
      (accepted : consume_handoff_cookie w.codec w.urls w.settings cookie q.state w.seconds
        ≡ done attempt) where
    introspect-Good :
        (e : PortalExchange)
        → exchange w.python w.portal q.code attempt.code_verifier w.exchange_answer w.milliseconds
          ≡ done e
        → (r : Result Identity × Cache)
        → (introspect w.python w.portal e.access_token w.clocks w.introspect_answer w.others
            cache).0
          ≡ r.0
        → Good (after_introspect w attempt e r)
    unfolding after_introspect reject signed_in
    introspect-Good e granted (done i, c) known = (
      refl,
      record {
        attempt = attempt;
        exchanged = e;
        identity = i;
        accepted = accepted;
        granted = granted;
        same_token = refl;
        lifetime = refl;
        known = known;
      },
    )
    introspect-Good e granted (unauthorized, c) known =
        revoked-Good attempt.return_path (codes "denied") _
    introspect-Good e granted (unavailable, c) known =
        revoked-Good attempt.return_path (codes "unavailable") _
    introspect-Good e granted (unauthenticated, c) known =
        revoked-Good attempt.return_path (codes "failed") _
    introspect-Good e granted (misconfigured, c) known =
        revoked-Good attempt.return_path (codes "failed") _
    introspect-Good e granted (unexpected, c) known = tt

    exchange-Good :
        (r : Result PortalExchange)
        → exchange w.python w.portal q.code attempt.code_verifier w.exchange_answer w.milliseconds
          ≡ r
        → Good (after_exchange w attempt r cache)
    unfolding after_exchange failure
    exchange-Good (done e) granted =
        introspect-Good e granted
          (introspect w.python w.portal e.access_token w.clocks w.introspect_answer w.others cache)
          refl
    exchange-Good unauthorized granted = (refl, tt)
    exchange-Good unavailable granted = (refl, tt)
    exchange-Good unauthenticated granted = (refl, tt)
    exchange-Good misconfigured granted = (refl, tt)
    exchange-Good unexpected granted = tt

    consume-Good : Good (after_consume w attempt q cache)
    unfolding after_consume failure
    consume-Good =
        if_cases Good (not (is_empty q.error)) (λ _. (refl, tt))
          (λ _. if_cases Good (is_empty q.code) (λ _. (refl, tt)) (λ _. exchange-Good _ refl))

  consumed-Good :
      (r : Result HandoffAttempt)
      → consume_handoff_cookie w.codec w.urls w.settings cookie q.state w.seconds ≡ r
      → Good (consumed w q cache r)
  unfolding consumed failure
  consumed-Good (done attempt) accepted = consume-Good attempt accepted
  consumed-Good unauthenticated accepted = (refl, tt)
  consumed-Good unauthorized accepted = tt
  consumed-Good unavailable accepted = tt
  consumed-Good misconfigured accepted = tt
  consumed-Good unexpected accepted = tt

  -- Whatever the query, the cookie and the portal's answers: a redirect clears the handoff cookie;
  -- and it sets a session cookie only if the handoff cookie was accepted with this state, the portal
  -- exchanged the code for exactly this token, and `introspect` returned an identity for it; the
  -- cookie lives as long as the exchange said, within the configured maximum.
  pub callback-GoodReply : GoodReply w cookie q cache (auth_callback_endpoint w cookie q cache).0
  unfolding auth_callback_endpoint failure
  callback-GoodReply =
      if_cases Good (is_invalid_shape q) (λ _. (refl, tt)) (λ _. consumed-Good _ refl)
