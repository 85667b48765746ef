-- ===== src/Auth/Handoff.antt =====
-- The signed handoff cookie of backend/blueash_auth.py: `create_handoff_attempt`,
-- `consume_handoff_cookie`, `_sign_payload`, `_verify_payload`. Times are in seconds.
use mathlib.Core.Option
use opportunity_radar.Prelude.{
  ℕ, ◌+◌, Bool, false, not, ◌&&◌, ◌||◌, Option, none, some, [], ◌∷◌, ◌++◌, ltb, ◌==◌, ◌>>=◌,
  if◌then◌else◌, Text, codes, text_eq, length, all, Dict, lookup,
}
use opportunity_radar.Auth.{
  Urllib, Result, done, unauthenticated, misconfigured, unexpected, and_then, Value, boolean,
  number, float, text, Loaded, malformed, object, bare,
}
use opportunity_radar.Auth.ReturnPath.{is_empty, safe_return_path}

-- What the cookie's code takes from hashlib, hmac, base64, json and `int`.
pub record Codec : Type 0 where
  -- _base64url of the HMAC-SHA256 of the purpose and the text, under the secret key
  pub hmac : Text → Text
  -- _base64url of the SHA-256
  pub challenge : Text → Text
  -- _base64url of `json.dumps`
  pub dumps : Dict Value → Text
  -- `json.loads` of `_base64url_decode`
  pub loads : Text → Loaded
  -- `int`; seconds count from a time so early that none is negative
  pub to_int : Value → Option ℕ

-- The settings: APP_BASE_PATH, RADAR_HANDOFF_STATE_TTL_SECONDS, whether
-- `validate_auth_configuration` passes, and whether AUTH_MODE is "portal_handoff".
pub record Settings : Type 0 where
  pub base : Text
  pub state_ttl : ℕ
  pub is_valid : Bool
  pub is_handoff : Bool

pub record HandoffAttempt : Type 0 where
  pub state : Text
  pub code_verifier : Text
  pub code_challenge : Text
  pub return_path : Text
  pub expires_at : ℕ

abbrev pub clock_skew_seconds : ℕ
clock_skew_seconds = 60

-- `compare_digest` raises on a `str` that is not ASCII.
unfoldable pub is_ascii : Text → Bool
is_ascii t = all (λ c. ltb c 128) t

-- The payload that `create_handoff_attempt` signs.
unfoldable pub handoff_payload : HandoffAttempt → (issued_at : ℕ) → Dict Value
handoff_payload attempt issued_at =
    ("v", number 1)
    ∷ ("state", text attempt.state)
    ∷ ("code_verifier", text attempt.code_verifier)
    ∷ ("return_path", text attempt.return_path)
    ∷ ("issued_at", number issued_at)
    ∷ ("expires_at", number attempt.expires_at)
    ∷ []

-- `encoded` and its signature, with a dot between.
unfoldable pub with_signature : Codec → Text → Text
with_signature lib encoded = encoded ++ codes "." ++ lib.hmac encoded

unfoldable pub sign_payload : Codec → Dict Value → Text
unfolding with_signature
sign_payload lib payload = with_signature lib (lib.dumps payload)

unfoldable pub new_attempt :
    Codec → Urllib → Settings → (return_to state verifier : Text) → (issued_at : ℕ) → HandoffAttempt
unfolding safe_return_path
new_attempt lib urls settings return_to state verifier issued_at = record {
  state = state;
  code_verifier = verifier;
  code_challenge = lib.challenge verifier;
  return_path = safe_return_path urls settings.base return_to;
  expires_at = issued_at + settings.state_ttl;
}

-- `state` and `verifier` are the two answers of `secrets.token_urlsafe`.
unfoldable pub create_handoff_attempt :
    Codec
    → Urllib
    → Settings
    → (return_to state verifier : Text) → (issued_at : ℕ) → Result (HandoffAttempt × Text)
unfolding new_attempt handoff_payload sign_payload
create_handoff_attempt lib urls settings return_to state verifier issued_at =
    let attempt = new_attempt lib urls settings return_to state verifier issued_at in
    if not (settings.is_valid && settings.is_handoff)
    then misconfigured
    else done (attempt, sign_payload lib (handoff_payload attempt issued_at))

-- cookie_value.split(".", 1), which must have two parts
unfoldable pub split_dot : Text → Option (Text × Text)
split_dot [] = none
split_dot (c ∷ t) =
    let longer = Option.map (λ p. (c ∷ p.0, p.1)) (split_dot t) in
    if c == b'.' then some ([], t) else longer

-- The payload must be a JSON object.
unfoldable pub payload_of : Loaded → Result (Dict Value)
payload_of malformed = unauthenticated
payload_of bare = unauthenticated
payload_of (object payload) = done payload

unfoldable pub verify_parts : Codec → Option (Text × Text) → Result (Dict Value)
unfolding payload_of is_ascii
verify_parts lib none = unauthenticated
verify_parts lib (some (encoded, supplied)) =
    if ltb 4_096 (length encoded) || ltb 128 (length supplied) || not (is_ascii encoded)
    then unauthenticated
    else if not (is_ascii supplied)
    then unexpected
    else if text_eq supplied (lib.hmac encoded)
    then payload_of (lib.loads encoded)
    else unauthenticated

unfoldable pub verify_payload : Codec → Text → Result (Dict Value)
unfolding verify_parts split_dot
verify_payload lib cookie_value = verify_parts lib (split_dot cookie_value)

-- What the `try` of `consume_handoff_cookie` reads.
pub record Fields : Type 0 where
  pub version : Value
  pub state : Value
  pub verifier : Value
  pub return_path : Value
  pub issued_at : ℕ
  pub expires_at : ℕ

unfoldable pub read_fields : Codec → Dict Value → Option Fields
read_fields lib payload = do
  version ← lookup "v" payload
  state ← lookup "state" payload
  verifier ← lookup "code_verifier" payload
  return_path ← lookup "return_path" payload
  issued ← lookup "issued_at" payload
  issued_at ← lib.to_int issued
  expires ← lookup "expires_at" payload
  expires_at ← lib.to_int expires
  some record {
    version = version;
    state = state;
    verifier = verifier;
    return_path = return_path;
    issued_at = issued_at;
    expires_at = expires_at;
  }

-- version == 1, in Python's sense
unfoldable pub is_one : Value → Bool
is_one (number n) = n == 1
is_one (boolean b) = b
is_one (float t) = text_eq t (codes "1.0")
is_one v = false

-- The tests after the comparison of the states was reached.
unfoldable pub is_refused :
    Urllib
    → Settings
    → (given stored verifier return_path : Text) → (now issued_at expires_at : ℕ) → Bool
unfolding safe_return_path
is_refused urls settings given stored verifier return_path now issued_at expires_at =
    not (text_eq stored given)
    || ltb (now + clock_skew_seconds) issued_at
    || ltb expires_at now
    || ltb (issued_at + settings.state_ttl) expires_at
    || ltb (length verifier) 43
    || not (text_eq (safe_return_path urls settings.base return_path) return_path)

unfoldable pub stored_attempt : Codec → (state verifier return_path : Text) → ℕ → HandoffAttempt
stored_attempt lib state verifier return_path expires_at = record {
  state = state;
  code_verifier = verifier;
  code_challenge = lib.challenge verifier;
  return_path = return_path;
  expires_at = expires_at;
}

unfoldable pub accept_fields :
    Codec
    → Urllib
    → Settings
    → (given stored verifier return_path : Text) → (now issued_at expires_at : ℕ)
    → Result HandoffAttempt
unfolding is_ascii is_refused stored_attempt
accept_fields lib urls settings given stored verifier return_path now issued_at expires_at =
    if not (is_ascii stored && is_ascii given)
    then unexpected
    else if is_refused urls settings given stored verifier return_path now issued_at expires_at
    then unauthenticated
    else if not (is_ascii verifier)
    then unexpected
    else done (stored_attempt lib stored verifier return_path expires_at)

unfoldable pub typed_fields :
    Codec
    → Urllib
    → Settings
    → (given : Text) → (now : ℕ) → (state verifier return_path : Value) → (issued_at expires_at : ℕ)
    → Result HandoffAttempt
unfolding accept_fields
typed_fields lib urls settings given now (text s) (text v) (text p) issued_at expires_at =
    accept_fields lib urls settings given s v p now issued_at expires_at
typed_fields lib urls settings given now s v p issued_at expires_at = unauthenticated

unfoldable pub check_fields :
    Codec → Urllib → Settings → (given : Text) → (now : ℕ) → Option Fields → Result HandoffAttempt
unfolding is_one typed_fields
check_fields lib urls settings given now none = unauthenticated
check_fields lib urls settings given now (some f) =
    if not (is_one f.version)
    then unauthenticated
    else typed_fields lib urls settings given now f.state f.verifier f.return_path f.issued_at
        f.expires_at

unfoldable pub consume_handoff_cookie :
    Codec → Urllib → Settings → (cookie_value state : Text) → (now : ℕ) → Result HandoffAttempt
unfolding is_empty verify_payload and_then read_fields check_fields
consume_handoff_cookie lib urls settings cookie_value state now =
    if is_empty cookie_value || is_empty state || ltb 512 (length state)
    then unauthenticated
    else and_then (verify_payload lib cookie_value)
        (λ payload. check_fields lib urls settings state now (read_fields lib payload))
