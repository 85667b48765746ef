-- ===== src/Auth/PortalTests.antt =====
-- The portal's client of backend/blueash_auth.py on concrete answers.
use opportunity_radar.Prelude.{
  ◌≡◌, refl, true, false, none, some, [], ◌∷◌, Text, codes, lookup, remove, strip, text_eq,
  is_space,
}
use opportunity_radar.Auth.{done, null, text, number, boolean, texts, object}
use opportunity_radar.Auth.ReturnPath.{is_empty}
use opportunity_radar.Auth.Portal.{
  Python, portal_handoff, PortalSettings, PortalResponse, response_json, parse_portal_datetime,
  valid_opaque_value, is_portal,
}
use opportunity_radar.Auth.Exchange.{PortalExchange, exchange}
use opportunity_radar.Auth.Identity.{Identity}
use opportunity_radar.Auth.Session.{Cache, Clocks, introspect, revoke, look}
use opportunity_radar.Auth.Source.{Source, introspect-Source}

-- Every time is the same instant.
abbrev python : Python
python = record {
  fromisoformat = λ t. some (some 1_000_000);
  uuid = λ t. some t;
  sha256 = λ t. "digest";
  str = λ v. codes "text";
  upper = λ t. t;
}

abbrev production : PortalSettings
production = record {
  is_valid = true;
  mode = portal_handoff;
  client_id = codes "text";
  session_idle_seconds = 1_800;
  session_absolute_max_seconds = 28_800;
  introspection_cache_seconds = 0;
}

abbrev token : Text
token = codes "0123456789abcdef"

abbrev granted : PortalResponse
granted = record {
  status_code = 200;
  size = 100;
  content_length = some 100;
  json = object (
      ("access_token", text token)
      ∷ ("token_type", text (codes "Bearer"))
      ∷ ("expires_in", number 600)
      ∷ ("idle_expires_at", text (codes "2026-01-01T00:00:00Z"))
      ∷ ("absolute_expires_at", text (codes "2026-01-01T00:00:00Z"))
      ∷ []);
}

abbrev exchanged : PortalExchange
exchanged = record {
  access_token = token;
  expires_in = 600;
  idle_expires_at = 1_000_000;
  absolute_expires_at = 1_000_000;
}

granted_run : exchange python production token token (some granted) 900_000 ≡ done exchanged
unfolding exchange strip response_json parse_portal_datetime valid_opaque_value is_portal text_eq
    is_space lookup
granted_run = refl

abbrev someone : Identity
someone = record {
  id = codes "u";
  username = codes "ann";
  email = codes "ann@example.org";
  display_name = codes "Ann";
  role = codes "USER";
  permissions = [];
  development_bypass = false;
}

abbrev cache : Cache
cache = ("digest", record { identity = someone; expires_at_monotonic = 5_000 }) ∷ []

abbrev clocks : Clocks
clocks = record {
  monotonic_before = 4_000;
  wall = 900_000;
  wall_after = 900_001;
  monotonic_after = 4_001;
}

served : (introspect python production token clocks none (λ d. d) cache).0 ≡ done someone
unfolding introspect look lookup valid_opaque_value is_portal strip text_eq
served = refl

introspect-Source_example : Source python production token clocks none cache someone
introspect-Source_example =
    introspect-Source python production token clocks none (λ d. d) cache someone served

token_some : is_empty token ≡ false
unfolding is_empty
token_some = refl

-- A portal that vouches for the token again, as a user.
abbrev user_python : Python
user_python = record python { upper = λ t. codes "USER" }

abbrev vouches : PortalResponse
vouches = record granted {
  json = object (
      ("active", boolean true)
      ∷ ("user_id", null)
      ∷ ("username", null)
      ∷ ("email", null)
      ∷ ("display_name", null)
      ∷ ("role", null)
      ∷ ("permissions", texts [])
      ∷ ("application_slug", null)
      ∷ ("idle_expires_at", text (codes "2026-01-01T00:00:00Z"))
      ∷ ("absolute_expires_at", text (codes "2026-01-01T00:00:00Z"))
      ∷ []);
}

abbrev text_user : Identity
text_user = record {
  id = codes "text";
  username = codes "text";
  email = codes "text";
  display_name = codes "text";
  role = codes "USER";
  permissions = [];
  development_bypass = false;
}

vouched_again :
    (introspect user_python production token clocks
      (some vouches)
      (λ d. d)
      (revoke user_python production token none cache).1).0
    ≡ done text_user
unfolding introspect revoke look lookup remove valid_opaque_value is_portal strip text_eq
vouched_again = refl
