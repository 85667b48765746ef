-- ===== src/Auth/Portal.antt =====
-- What backend/blueash_auth.py reads in the portal's answers: `_response_json`,
-- `_parse_portal_datetime`, `_valid_opaque_value`, `_canonical_uuid`.
-- Points in time and durations are in milliseconds.
use opportunity_radar.Prelude.{
  ℕ, ◌*◌, String, Bool, true, false, not, ◌&&◌, ◌||◌, Option, none, some, [], ◌∷◌, ◌++◌, ltb, leb,
  ◌==◌, if◌then◌else◌, Text, codes, text_eq, strip, length, any, Dict,
}
use opportunity_radar.Auth.{Result, done, unavailable, Value, text, Loaded, object}
use opportunity_radar.Auth.ReturnPath.{is_empty}

-- What the client takes from datetime, uuid, hashlib and `str`.
pub record Python : Type 0 where
  -- `fromisoformat`: `none` if it raises; a time without a zone; an instant
  pub fromisoformat : Text → Option (Option ℕ)
  -- str(UUID(x)), unless it raises
  pub uuid : Text → Option Text
  -- the hex digest
  pub sha256 : Text → String
  pub str : Value → Text
  pub upper : Text → Text

-- AUTH_MODE
pub data Mode : Type 0 where
  local : Mode
  portal_handoff : Mode
  unsupported : Mode

-- The configuration, and whether `validate_auth_configuration` passes.
pub record PortalSettings : Type 0 where
  pub is_valid : Bool
  pub mode : Mode
  pub client_id : Text
  pub session_idle_seconds : ℕ
  pub session_absolute_max_seconds : ℕ
  pub introspection_cache_seconds : ℕ

-- The portal's answer; `_post` turns an exception, here `none`, into `BlueAshUnavailableError`.
pub record PortalResponse : Type 0 where
  pub status_code : ℕ
  -- len(response.content)
  pub size : ℕ
  -- the content-length header, if it is all digits
  pub content_length : Option ℕ
  pub json : Loaded

abbrev pub max_auth_response_bytes : ℕ
max_auth_response_bytes = 64 * 1_024

is_oversized : Option ℕ → Bool
is_oversized none = false
is_oversized (some n) = ltb max_auth_response_bytes n

json_object : Loaded → Result (Dict Value)
json_object (object payload) = done payload
json_object other = unavailable

unfoldable pub response_json : PortalResponse → Result (Dict Value)
unfolding is_oversized json_object
response_json r =
    if ltb max_auth_response_bytes r.size || is_oversized r.content_length
    then unavailable
    else json_object r.json

-- value.replace("Z", "+00:00")
unfoldable pub replace_z : Text → Text
replace_z [] = []
replace_z (c ∷ t) = let rest = replace_z t in if c == b'Z' then codes "+00:00" ++ rest else c ∷ rest

-- A time without a zone raises `ValueError` too.
aware : Option (Option ℕ) → Option ℕ
aware none = none
aware (some instant) = instant

unfoldable pub parse_portal_datetime : Python → Value → Option ℕ
unfolding replace_z aware is_empty
parse_portal_datetime py (text t) =
    if is_empty t || ltb 64 (length t) then none else aware (py.fromisoformat (replace_z t))
parse_portal_datetime py v = none

unfoldable pub valid_opaque_value : Text → Bool
valid_opaque_value t =
    leb 16 (length t)
    && leb (length t) 4_096
    && text_eq t (strip t)
    && not (any (λ c. ltb c 33 || (c == 127)) t)

unfoldable pub canonical_uuid : Python → Text → Text
canonical_uuid py t = elim (py.uuid (strip t)) [ none ↦ [] | some u ↦ u ]

unfoldable pub is_portal : Mode → Bool
is_portal portal_handoff = true
is_portal m = false
