-- ===== src/Auth/Tests.antt =====
-- Runs of backend/blueash_auth.py on concrete inputs, and the theorems at such inputs.
use opportunity_radar.Prelude.{
  ℕ, ◌≡◌, refl, ◌⊎◌, true, Option, none, some, [], arith, Text, codes, strip, text_eq, starts_with,
}
use opportunity_radar.Auth.{Urllib, done, Value, number, object, malformed}
use opportunity_radar.Auth.ReturnPath.{safe_return_path, fallback, decoded_values, is_empty}
use opportunity_radar.Auth.Handoff.{
  Codec, Settings, HandoffAttempt, is_ascii, handoff_payload, sign_payload, new_attempt,
  create_handoff_attempt, consume_handoff_cookie,
}
use opportunity_radar.Auth.Accepted.{Accepted, consume-Accepted}
use opportunity_radar.Auth.RoundTrip.{IsCodec, IsTokens, consume-create, consume-sign}
use opportunity_radar.Auth.LocalPath.{IsLocal, decode, safe_return_path-IsLocal}

-- A library for texts with nothing to decode, where the whole text is the path.
abbrev plain_urls : Urllib
plain_urls = record {
  unquote = λ t. t;
  urlsplit = λ t. some record { scheme = []; netloc = []; path = t; query = []; fragment = [] };
}

returns_jobs : safe_return_path plain_urls [] (codes " /jobs ") ≡ codes "/jobs"
unfolding safe_return_path strip decoded_values text_eq starts_with
returns_jobs = refl

refuses_host : safe_return_path plain_urls [] (codes "//evil") ≡ codes "/"
unfolding safe_return_path strip decoded_values text_eq starts_with
refuses_host = refl

refuses_api : safe_return_path plain_urls (codes "/radar") (codes "/radar/api/x") ≡ codes "/radar"
unfolding safe_return_path strip decoded_values text_eq starts_with
refuses_api = refl

safe_return_path-IsLocal_example :
    (safe_return_path plain_urls [] (codes " /jobs") ≡ fallback [])
    ⊎ ((safe_return_path plain_urls [] (codes " /jobs") ≡ strip (codes " /jobs"))
        × ((n : ℕ)
            → IsLocal (decode plain_urls n (safe_return_path plain_urls [] (codes " /jobs")))))
safe_return_path-IsLocal_example = safe_return_path-IsLocal plain_urls [] (codes " /jobs")

roots : strip (fallback []) ≡ fallback []
unfolding strip fallback
roots = refl

-- A codec for the payload of one attempt. The state and the verifier have as many characters as
-- the answers of `token_urlsafe`.
abbrev token_state : Text
token_state = codes "AAAAAAAAAAAAAAAAAAAAAAAAAAAAAAAAAAAAAAAAAAA"

abbrev token_verifier : Text
token_verifier = codes "BBBBBBBBBBBBBBBBBBBBBBBBBBBBBBBBBBBBBBBBBBBBBBBBBBBBBBBBBBBBBBBB"

unfoldable int_of : Value → Option ℕ
int_of (number n) = some n
int_of v = none

abbrev settings : Settings
settings = record { base = []; state_ttl = 300; is_valid = true; is_handoff = true }

abbrev blank_codec : Codec
blank_codec = record {
  hmac = λ t. codes "mac";
  challenge = λ t. codes "C";
  dumps = λ d. codes "payload";
  loads = λ t. malformed;
  to_int = int_of;
}

abbrev codec : Codec
codec = record {
  hmac = λ t. codes "mac";
  challenge = λ t. codes "C";
  dumps = λ d. codes "payload";
  loads = λ t. object (
      handoff_payload
        (new_attempt blank_codec plain_urls settings (codes "/jobs") token_state token_verifier 100)
        100);
  to_int = int_of;
}

codec-IsCodec : IsCodec codec (
    handoff_payload
      (new_attempt codec plain_urls settings (codes "/jobs") token_state token_verifier 100)
      100)
unfolding new_attempt handoff_payload is_ascii int_of
codec-IsCodec = record {
  dotless = ground arith;
  ascii_dumps = refl;
  ascii_hmac = refl;
  short_hmac = omega arith;
  reads_back = (_, refl, λ k. refl);
  keeps_int = λ n. refl;
}

chosen-IsTokens : IsTokens token_state token_verifier
unfolding is_empty is_ascii
chosen-IsTokens = record {
  some_state = refl;
  short_state = omega arith;
  ascii_state = refl;
  ascii_verifier = refl;
  long_verifier = omega arith;
}

consume-create_example :
    (attempt : HandoffAttempt) × (cookie : Text) × (create_handoff_attempt codec plain_urls settings
        (codes "/jobs")
        token_state
        token_verifier
        100
      ≡ done (attempt, cookie))
    × (consume_handoff_cookie codec plain_urls settings cookie token_state 400 ≡ done attempt)
consume-create_example =
    consume-create codec plain_urls settings (codes "/jobs") token_state token_verifier 100 400
      codec-IsCodec chosen-IsTokens roots refl (omega arith) (omega arith) (omega arith)

abbrev accepted_cookie : Text
accepted_cookie = sign_payload codec (
    handoff_payload
      (new_attempt codec plain_urls settings (codes "/jobs") token_state token_verifier 100) 100)

accepted_100 :
    consume_handoff_cookie codec plain_urls settings accepted_cookie token_state 400
    ≡ done (new_attempt codec plain_urls settings (codes "/jobs") token_state token_verifier 100)
accepted_100 =
    consume-sign codec plain_urls settings (codes "/jobs") token_state token_verifier 100 400
      codec-IsCodec chosen-IsTokens roots (omega arith) (omega arith) (omega arith)

consume-Accepted_example :
    Accepted codec plain_urls settings accepted_cookie token_state 400
      (new_attempt codec plain_urls settings (codes "/jobs") token_state token_verifier 100)
consume-Accepted_example =
    consume-Accepted codec plain_urls settings accepted_cookie token_state 400
      (new_attempt codec plain_urls settings (codes "/jobs") token_state token_verifier 100)
      accepted_100
