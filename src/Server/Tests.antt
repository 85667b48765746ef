-- ===== src/Server/Tests.antt =====
-- Requests to server.py on concrete inputs.
use opportunity_radar.Prelude.{
  ℕ, ◌≡◌, refl, true, Option, none, some, [], ◌∷◌, Text, codes, text_eq, starts_with,
}
use opportunity_radar.Auth.{done, unauthenticated}
use opportunity_radar.Auth.Identity.{local_identity}
use opportunity_radar.Auth.{Value, number, text, object}
use opportunity_radar.Auth.Portal.{portal_handoff, PortalResponse}
use opportunity_radar.Server.Callback.{Query, World, auth_callback_endpoint}
use opportunity_radar.Server.SignIn.{GoodReply, callback-GoodReply}
use opportunity_radar.Server.{
  HttpRequest, answered, handled, production_security, IsAdmitted, production_security-IsAdmitted,
}

abbrev request : HttpRequest
request = record { path = codes "/api/jobs"; method = "POST"; origin = codes "https://radar" }

lets_in :
    production_security true (codes "https://radar") (done local_identity) request
    ≡ handled (some local_identity)
unfolding production_security text_eq starts_with
lets_in = refl

asks_to_sign_in :
    production_security true (codes "https://radar") unauthenticated request ≡ answered 401 true
unfolding production_security text_eq starts_with
asks_to_sign_in = refl

production_security-IsAdmitted_example :
    IsAdmitted true (codes "https://radar") (done local_identity) request (some local_identity)
production_security-IsAdmitted_example =
    production_security-IsAdmitted true (codes "https://radar") (done local_identity) request
      (some local_identity) lets_in

abbrev verifier : Text
verifier = codes "BBBBBBBBBBBBBBBBBBBBBBBBBBBBBBBBBBBBBBBBBBBBBBBBBBBBBBBBBBBBBBBB"

unfoldable int_of : Value → Option ℕ
int_of (number n) = some n
int_of v = none

abbrev grants : PortalResponse
grants = record {
  status_code = 200;
  size = 100;
  content_length = none;
  json = object (
      ("access_token", text verifier)
      ∷ ("token_type", text (codes "Bearer"))
      ∷ ("expires_in", number 600)
      ∷ ("idle_expires_at", text (codes "t"))
      ∷ ("absolute_expires_at", text (codes "t"))
      ∷ []);
}

-- A handoff cookie that is accepted, and a portal that exchanges the code and then is not there.
abbrev world : World
world = record {
  codec = record {
    hmac = λ t. codes "mac";
    challenge = λ t. codes "C";
    dumps = λ d. codes "p";
    loads = λ t. object (
        ("v", number 1)
        ∷ ("state", text (codes "s"))
        ∷ ("code_verifier", text verifier)
        ∷ ("return_path", text (codes "/"))
        ∷ ("issued_at", number 100)
        ∷ ("expires_at", number 400)
        ∷ []);
    to_int = int_of;
  };
  urls = record {
    unquote = λ t. t;
    urlsplit = λ t. some record { scheme = []; netloc = []; path = t; query = []; fragment = [] };
  };
  settings = record { base = []; state_ttl = 300; is_valid = true; is_handoff = true };
  python = record {
    fromisoformat = λ t. some (some 1_000_000);
    uuid = λ t. some t;
    sha256 = λ t. "digest";
    str = λ v. codes "text";
    upper = λ t. t;
  };
  portal = record {
    is_valid = true;
    mode = portal_handoff;
    client_id = codes "radar";
    session_idle_seconds = 1_800;
    session_absolute_max_seconds = 28_800;
    introspection_cache_seconds = 0;
  };
  seconds = 200;
  milliseconds = 200_000;
  clocks = record {
    monotonic_before = 1;
    wall = 200_000;
    wall_after = 200_001;
    monotonic_after = 2;
  };
  exchange_answer = some grants;
  introspect_answer = none;
  revoke_answer = none;
  others = λ c. c;
}

abbrev query : Query
query = record {
  code = verifier;
  state = codes "s";
  error = [];
  codes_given = 1;
  states_given = 1;
  errors_given = 0;
}

callback-GoodReply_example :
    GoodReply world
      (codes "p.mac")
      query
      []
      (auth_callback_endpoint world (codes "p.mac") query []).0
callback-GoodReply_example = callback-GoodReply world (codes "p.mac") query []
