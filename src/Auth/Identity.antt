-- ===== src/Auth/Identity.antt =====
-- `_identity_from_introspection` of backend/blueash_auth.py, and who is an administrator.
-- Points in time are in milliseconds.
use mathlib.Core.Option
use opportunity_radar.Prelude.{
  ℕ, ◌+◌, ◌*◌, String, Bool, true, false, not, ◌&&◌, ◌||◌, Option, none, some, List, [], ◌∷◌, ltb,
  leb, ◌>>=◌, if◌then◌else◌, Text, codes, text_eq, strip, length, Dict, lookup,
}
use opportunity_radar.Auth.{Result, done, unauthenticated, unauthorized, unavailable, Value, texts}
use opportunity_radar.Auth.ReturnPath.{is_empty}
use opportunity_radar.Auth.Portal.{Python, PortalSettings, parse_portal_datetime, canonical_uuid}

pub record Identity : Type 0 where
  pub id : Text
  pub username : Text
  pub email : Text
  pub display_name : Text
  pub role : Text
  pub permissions : List Text
  pub development_bypass : Bool

abbrev pub local_identity : Identity
local_identity = record {
  id = codes "local-development";
  username = codes "local";
  email = codes "local@development.invalid";
  display_name = codes "Local Development";
  role = codes "ADMINISTRATOR";
  permissions = codes "*" ∷ [];
  development_bypass = true;
}

-- `is_administrator`; the flag is whether APP_ENV is "development" and AUTH_MODE is "local".
unfoldable pub is_administrator : (is_development_local : Bool) → Identity → Bool
is_administrator is_development_local i =
    if i.development_bypass then is_development_local else text_eq i.role (codes "ADMINISTRATOR")

-- `is_trusted_initial_administrator`, with APP_TRUSTED_ADMIN_USER_ID
unfoldable pub is_trusted_initial_administrator :
    Python → (is_development_local : Bool) → (trusted_id : Text) → Identity → Bool
unfolding canonical_uuid is_empty
is_trusted_initial_administrator py is_development_local trusted_id i =
    if i.development_bypass
    then is_development_local
    else not (is_empty (canonical_uuid py trusted_id))
      && not (is_empty (canonical_uuid py i.id))
      && text_eq i.role (codes "ADMINISTRATOR")
      && text_eq (canonical_uuid py i.id) (canonical_uuid py trusted_id)

-- What the `try` reads; the texts are stripped, and the role is in capitals.
pub record Claims : Type 0 where
  pub user_id : Text
  pub username : Text
  pub email : Text
  pub display_name : Text
  pub role : Text
  pub permissions : Value
  pub application_slug : Text
  pub idle_expires_at : ℕ
  pub absolute_expires_at : ℕ

-- str(payload[k]).strip()
read_text : Python → String → Dict Value → Option Text
read_text py k payload = do v ← lookup k payload; some (strip (py.str v))

read_time : Python → String → Dict Value → Option ℕ
unfolding parse_portal_datetime
read_time py k payload = do v ← lookup k payload; parse_portal_datetime py v

unfoldable pub read_claims : Python → Dict Value → Option Claims
unfolding read_text read_time
read_claims py payload = do
  user_id ← read_text py "user_id" payload
  username ← read_text py "username" payload
  email ← read_text py "email" payload
  display_name ← read_text py "display_name" payload
  role ← read_text py "role" payload
  permissions ← lookup "permissions" payload
  slug ← read_text py "application_slug" payload
  idle ← read_time py "idle_expires_at" payload
  absolute ← read_time py "absolute_expires_at" payload
  some record {
    user_id = user_id;
    username = username;
    email = email;
    display_name = display_name;
    role = py.upper role;
    permissions = permissions;
    application_slug = slug;
    idle_expires_at = idle;
    absolute_expires_at = absolute;
  }

-- Every entry is a text of 1 to 256 characters.
unfoldable pub permission_texts : List (Option Text) → Option (List Text)
permission_texts [] = some []
permission_texts (none ∷ vs) = none
permission_texts (some t ∷ vs) =
    let rest = Option.map (λ ts. t ∷ ts) (permission_texts vs) in
    if is_empty t || ltb 256 (length t) then none else rest

unfoldable pub read_permissions : Value → Option (List Text)
unfolding permission_texts
read_permissions (texts vs) = if ltb 256 (length vs) then none else permission_texts vs
read_permissions v = none

unfoldable pub is_role : Text → Bool
is_role role = text_eq role (codes "ADMINISTRATOR") || text_eq role (codes "USER")

unfoldable pub is_malformed : Python → Claims → Bool
unfolding canonical_uuid is_empty
is_malformed py c =
    is_empty (canonical_uuid py c.user_id)
    || not (text_eq c.user_id (canonical_uuid py c.user_id))
    || is_empty c.username
    || ltb 320 (length c.username)
    || is_empty c.email
    || ltb 320 (length c.email)
    || ltb 320 (length c.display_name)

-- The bounds of the session, which allow a minute for the clocks.
unfoldable pub is_expired : PortalSettings → (now : ℕ) → Claims → Bool
is_expired settings now c =
    leb c.idle_expires_at now
    || leb c.absolute_expires_at now
    || ltb c.absolute_expires_at c.idle_expires_at
    || ltb (now + 1_000 * (settings.session_idle_seconds + 60)) c.idle_expires_at
    || ltb (now + 1_000 * (settings.session_absolute_max_seconds + 60)) c.absolute_expires_at

unfoldable pub identity_of : Python → Claims → List Text → Identity
unfolding canonical_uuid
identity_of py c permissions = record {
  id = canonical_uuid py c.user_id;
  username = c.username;
  email = c.email;
  display_name = if is_empty c.display_name then c.username else c.display_name;
  role = c.role;
  permissions = permissions;
  development_bypass = false;
}

-- An identity, and its idle and absolute expiry.
abbrev pub Session : Type 0
Session = Identity × ℕ × ℕ

unfoldable pub check_claims :
    Python → PortalSettings → (now : ℕ) → Claims → Option (List Text) → Result Session
unfolding is_role is_malformed is_expired identity_of
check_claims py settings now c none = unavailable
check_claims py settings now c (some permissions) =
    if not (text_eq c.application_slug settings.client_id)
    then unauthorized
    else if not (is_role c.role)
    then unauthorized
    else if is_malformed py c
    then unavailable
    else if is_expired settings now c
    then unauthenticated
    else done (identity_of py c permissions, c.idle_expires_at, c.absolute_expires_at)

unfoldable pub identity_of_claims :
    Python → PortalSettings → (now : ℕ) → Option Claims → Result Session
unfolding check_claims read_permissions
identity_of_claims py settings now none = unavailable
identity_of_claims py settings now (some c) =
    check_claims py settings now c (read_permissions c.permissions)

unfoldable pub identity_from_introspection :
    Python → PortalSettings → (now : ℕ) → Dict Value → Result Session
unfolding identity_of_claims read_claims
identity_from_introspection py settings now payload =
    identity_of_claims py settings now (read_claims py payload)
