-- ===== src/Auth/Exchange.antt =====
-- `exchange` of backend/blueash_auth.py, and the lifetime of the session cookie.
-- Points in time are in milliseconds; `expires_in` is in seconds.
use opportunity_radar.Prelude.{
  ℕ, ◌≤◌, ◌<◌, min, max, Bool, true, not, ◌&&◌, ◌||◌, Option, none, some, ltb, leb, ◌==◌, ◌>>=◌,
  if◌then◌else◌, if_cases, arith, ◌≡◌, subst, Text, codes, text_eq, Dict, lookup,
}
use opportunity_radar.Auth.{
  Result, done, unauthenticated, unauthorized, unavailable, misconfigured, and_then, Value, text,
  number,
}
use opportunity_radar.Auth.Portal.{
  Python, PortalSettings, PortalResponse, response_json, parse_portal_datetime, valid_opaque_value,
  is_portal,
}

pub record PortalExchange : Type 0 where
  pub access_token : Text
  pub expires_in : ℕ
  pub idle_expires_at : ℕ
  pub absolute_expires_at : ℕ

-- What the `try` of `exchange` reads.
pub record ExchangeFields : Type 0 where
  pub token : Value
  pub token_type : Value
  pub expires_in : Value
  pub idle_expires_at : ℕ
  pub absolute_expires_at : ℕ

exchange_fields : Python → Dict Value → Option ExchangeFields
unfolding parse_portal_datetime
exchange_fields py payload = do
  token ← lookup "access_token" payload
  token_type ← lookup "token_type" payload
  expires_in ← lookup "expires_in" payload
  idle_value ← lookup "idle_expires_at" payload
  idle ← parse_portal_datetime py idle_value
  absolute_value ← lookup "absolute_expires_at" payload
  absolute ← parse_portal_datetime py absolute_value
  some record {
    token = token;
    token_type = token_type;
    expires_in = expires_in;
    idle_expires_at = idle;
    absolute_expires_at = absolute;
  }

is_exchange_refused :
    PortalSettings → (now : ℕ) → (token token_type : Text) → (expires_in idle absolute : ℕ) → Bool
unfolding valid_opaque_value
is_exchange_refused settings now token token_type expires_in idle absolute =
    not (valid_opaque_value token)
    || not (text_eq token_type (codes "Bearer"))
    || ltb expires_in 1
    || ltb settings.session_absolute_max_seconds expires_in
    || leb idle now
    || leb absolute now
    || ltb absolute idle

-- The types of the fields, and the tests.
accept_exchange :
    PortalSettings
    → (now : ℕ) → (token token_type expires_in : Value) → (idle absolute : ℕ)
    → Result PortalExchange
unfolding is_exchange_refused
accept_exchange settings now (text t) (text b) (number n) idle absolute =
    if is_exchange_refused settings now t b n idle absolute
    then unavailable
    else done record {
      access_token = t;
      expires_in = n;
      idle_expires_at = idle;
      absolute_expires_at = absolute;
    }
accept_exchange settings now t b n idle absolute = unavailable

check_exchange : PortalSettings → (now : ℕ) → Option ExchangeFields → Result PortalExchange
unfolding accept_exchange
check_exchange settings now none = unavailable
check_exchange settings now (some f) =
    accept_exchange settings now f.token f.token_type f.expires_in f.idle_expires_at
      f.absolute_expires_at

exchange_answer :
    Python → PortalSettings → (now : ℕ) → Option PortalResponse → Result PortalExchange
unfolding response_json and_then check_exchange exchange_fields
exchange_answer py settings now none = unavailable
exchange_answer py settings now (some r) =
    if r.status_code == 400 || r.status_code == 401
    then unauthenticated
    else if r.status_code == 403
    then unauthorized
    else if not (r.status_code == 200)
    then unavailable
    else and_then (response_json r)
        (λ payload. check_exchange settings now (exchange_fields py payload))

-- `exchange`: `answer` is what the portal answers to the code, if it is sent.
unfoldable pub exchange :
    Python
    → PortalSettings
    → (code verifier : Text) → (answer : Option PortalResponse) → (now : ℕ) → Result PortalExchange
unfolding valid_opaque_value exchange_answer is_portal
exchange py settings code verifier answer now =
    if not (settings.is_valid && is_portal settings.mode)
    then misconfigured
    else if not (valid_opaque_value code) || not (valid_opaque_value verifier)
    then unauthenticated
    else exchange_answer py settings now answer

-- set_session_cookie: the cookie's max_age
unfoldable pub session_max_age : PortalSettings → ℕ → ℕ
session_max_age settings max_age = max 1 (min max_age settings.session_absolute_max_seconds)

-- What `exchange` promises of its result.
pub record Exchanged (settings : PortalSettings) (now : ℕ) (e : PortalExchange) : Type 0 where
  pub opaque_token : valid_opaque_value e.access_token ≡ true
  pub positive : 1 ≤ e.expires_in
  pub bounded : e.expires_in ≤ settings.session_absolute_max_seconds
  pub unexpired : now < e.idle_expires_at
  pub ordered : e.idle_expires_at ≤ e.absolute_expires_at

module _ (settings : PortalSettings) (now : ℕ) where
  abbrev SoundExchange : Result PortalExchange → Type 0
  SoundExchange (done e) = Exchanged settings now e
  SoundExchange r = Unit

  accept_exchange-SoundExchange :
      (t b n : Value) (idle absolute : ℕ)
      → SoundExchange (accept_exchange settings now t b n idle absolute)
  unfolding accept_exchange is_exchange_refused
  accept_exchange-SoundExchange (text t) (text b) (number n) idle absolute =
      if_cases SoundExchange (is_exchange_refused settings now t b n idle absolute)
        {y = done record {
          access_token = t;
          expires_in = n;
          idle_expires_at = idle;
          absolute_expires_at = absolute;
        }}
        (λ _. tt)
        (λ ok. record {
          opaque_token = ground arith;
          positive = ground arith;
          bounded = ground arith;
          unexpired = ground arith;
          ordered = ground arith;
        })
  accept_exchange-SoundExchange t b n idle absolute = tt

  check_exchange-SoundExchange :
      (f : Option ExchangeFields) → SoundExchange (check_exchange settings now f)
  unfolding check_exchange
  check_exchange-SoundExchange none = tt
  check_exchange-SoundExchange (some f) =
      accept_exchange-SoundExchange f.token f.token_type f.expires_in f.idle_expires_at
        f.absolute_expires_at

  and_then-SoundExchange :
      (py : Python) (payload : Result (Dict Value))
      → SoundExchange (and_then payload (λ d. check_exchange settings now (exchange_fields py d)))
  unfolding and_then
  and_then-SoundExchange py (done d) = check_exchange-SoundExchange (exchange_fields py d)
  and_then-SoundExchange py r = tt

  exchange_answer-SoundExchange :
      (py : Python) (answer : Option PortalResponse)
      → SoundExchange (exchange_answer py settings now answer)
  unfolding exchange_answer
  exchange_answer-SoundExchange py none = tt
  exchange_answer-SoundExchange py (some r) =
      if_cases SoundExchange (r.status_code == 400 || r.status_code == 401) (λ _. tt)
        (λ _.
          if_cases SoundExchange (r.status_code == 403) (λ _. tt)
            (λ _.
              if_cases SoundExchange (not (r.status_code == 200)) (λ _. tt)
                (λ _. and_then-SoundExchange py (response_json r))))

  exchange-SoundExchange :
      (py : Python) (code verifier : Text) (answer : Option PortalResponse)
      → SoundExchange (exchange py settings code verifier answer now)
  unfolding exchange
  exchange-SoundExchange py code verifier answer =
      if_cases SoundExchange (not (settings.is_valid && is_portal settings.mode)) (λ _. tt)
        (λ _.
          if_cases SoundExchange
            (not (valid_opaque_value code) || not (valid_opaque_value verifier)) (λ _. tt)
            (λ _. exchange_answer-SoundExchange py answer))

-- Whatever the portal answers: a token that `exchange` returns has 16 to 4,096 characters without
-- spaces or controls; its lifetime is positive and within the configured maximum, so that the
-- session cookie lives exactly that long; and its idle expiry lies ahead, no later than the
-- absolute one.
pub exchange-Exchanged :
    (py : Python) (settings : PortalSettings) (code verifier : Text)
    (answer : Option PortalResponse) (now : ℕ) (e : PortalExchange)
    → exchange py settings code verifier answer now ≡ done e
    → Exchanged settings now e × (session_max_age settings e.expires_in ≡ e.expires_in)
unfolding session_max_age
exchange-Exchanged py settings code verifier answer now e returned =
    let x : Exchanged settings now e =
      subst (SoundExchange settings now) returned
        (exchange-SoundExchange settings now py code verifier answer) in
    (x, omega (arith, x.positive, x.bounded))
