-- ===== src/Outbound/Redirects.antt =====
-- `_request_with_validated_redirects` of backend/outbound_security.py and its helpers.
use mathlib.Core.Option
use opportunity_radar.Prelude.{
  ℕ, zero, suc, Bool, true, false, not, ◌&&◌, ◌||◌, Option, none, some, List, [], ◌∷◌, ltb, ◌==◌,
  if◌then◌else◌, Text, codes, text_eq, any, filter,
}
use opportunity_radar.Outbound.{lower, UrlOrigin, origin, origin_eq}

-- Headers, with their names as they were given.
abbrev pub Headers : Type 0
Headers = List (Text × Text)

-- The keyword arguments that the code looks at; `none` where one is absent, and any text for a
-- value that is only passed on.
pub record Kwargs : Type 0 where
  pub params : Option Text
  pub auth : Option Text
  pub cookies : Option Text
  pub headers : Option Headers
  pub form_data : Option Text
  pub json : Option Text
  pub files : Option Text
  pub content : Option Text

-- The session's own defaults, which `requests` merges into each request.
pub record Defaults : Type 0 where
  pub params : Option Text
  pub auth : Option Text
  pub headers : Headers
  pub cookies : Option Text

-- One request as the sender gets it, with the session's defaults at that time.
pub record Sent : Type 0 where
  pub hop : ℕ
  pub method : Text
  pub url : Text
  pub kwargs : Kwargs
  pub defaults : Defaults

-- What the loop reads of an answer; the location is empty where the header is absent.
pub record Reply : Type 0 where
  pub status_code : ℕ
  pub location : Text

-- The answers from outside: `validate_outbound_url`, called twice for each hop, which may resolve
-- a name anew each time; `urlsplit` for `_origin`; `urljoin`; and the sender, which may raise.
pub record Net : Type 0 where
  pub validate : (hop : ℕ) → (after_reply : Bool) → Text → Bool
  pub urlsplit : Text → UrlOrigin
  pub urljoin : Text → Text → Text
  pub sender : Sent → Option Reply

-- How the call ends: it returns an answer, or raises.
pub data Outcome : Type 0 where
  returned : Reply → Outcome
  unsafe : Outcome
  limit_exceeded : Outcome
  sender_raised : Outcome

-- The loop's variables.
pub record Hop : Type 0 where
  pub history : ℕ
  pub method : Text
  pub url : Text
  pub kwargs : Kwargs
  pub session_credentials_allowed : Bool

unfoldable pub is_secret : Text → Bool
unfolding lower
is_secret name = any (text_eq (lower name)) (
    codes "authorization"
    ∷ codes "proxy-authorization"
    ∷ codes "cookie"
    ∷ codes "x-api-key"
    ∷ codes "api-key"
    ∷ [])

unfoldable pub is_entity : Text → Bool
unfolding lower
is_entity name =
    any (text_eq (lower name))
      (codes "content-length" ∷ codes "content-type" ∷ codes "transfer-encoding" ∷ [])

-- `_remove_headers`
unfoldable pub remove_headers : (Text → Bool) → Headers → Headers
remove_headers forbidden headers = filter (λ h. not (forbidden h.0)) headers

unfoldable pub is_redirect : ℕ → Bool
is_redirect status =
    (status == 301) || (status == 302) || (status == 303) || (status == 307) || (status == 308)

-- `_send_requests_hop`: the defaults that are in place while the sender runs. It restores the
-- session's own afterwards, so each hop starts from these.
unfoldable pub hop_defaults : (suppress_params suppress_credentials : Bool) → Defaults → Defaults
unfolding remove_headers is_secret
hop_defaults suppress_params suppress_credentials d = record {
  params = if suppress_params then none else d.params;
  auth = if suppress_credentials then none else d.auth;
  headers = if suppress_credentials then remove_headers is_secret d.headers else d.headers;
  cookies = if suppress_credentials then none else d.cookies;
}

-- The next method of `_redirect_method_and_kwargs`.
unfoldable pub next_method : Text → ℕ → Text
next_method method status =
    if (status == 303) && not (text_eq method (codes "HEAD"))
    then codes "GET"
    else if (status == 302) && not (text_eq method (codes "HEAD"))
    then codes "GET"
    else if (status == 301) && text_eq method (codes "POST")
    then codes "GET"
    else method

-- Another origin gets no credentials.
unfoldable pub without_credentials : Kwargs → Kwargs
unfolding remove_headers is_secret
without_credentials k = record k {
  auth = none;
  cookies = none;
  headers = Option.map (remove_headers is_secret) k.headers;
}

-- A request that becomes a GET loses its body.
unfoldable pub without_body : Kwargs → Kwargs
unfolding remove_headers is_entity
without_body k = record k {
  form_data = none;
  json = none;
  files = none;
  content = none;
  headers = Option.map (remove_headers is_entity) k.headers;
}

unfoldable pub becomes_get : (method next : Text) → Bool
becomes_get method next = text_eq next (codes "GET") && not (text_eq method (codes "GET"))

-- The arguments of `_redirect_method_and_kwargs`, and `pop("params")` after it.
unfoldable pub redirect_kwargs : (cross_origin : Bool) → (method next : Text) → Kwargs → Kwargs
unfolding without_credentials without_body becomes_get
redirect_kwargs cross_origin method next k =
    let safe = if cross_origin then without_credentials k else k in
    record (if becomes_get method next then without_body safe else safe) { params = none }

unfoldable pub crosses : Net → Text → Text → Bool
unfolding origin_eq origin
crosses net a b = not (origin_eq (origin (net.urlsplit a)) (origin (net.urlsplit b)))

unfoldable pub next_hop : Net → Hop → Reply → Hop
unfolding crosses redirect_kwargs next_method
next_hop net h r =
    let target = net.urljoin h.url r.location in
    record {
      history = suc h.history;
      method = next_method h.method r.status_code;
      url = target;
      kwargs =
          redirect_kwargs (crosses net h.url target) h.method (next_method h.method r.status_code)
            h.kwargs;
      session_credentials_allowed = h.session_credentials_allowed && not (crosses net h.url target);
    }

-- `d` gives the session's own defaults at each hop: a sender may store cookies there.
unfoldable pub sent_at : (ℕ → Defaults) → Hop → Sent
unfolding hop_defaults
sent_at d h = record {
  hop = h.history;
  method = h.method;
  url = h.url;
  kwargs = h.kwargs;
  defaults = hop_defaults (ltb 0 h.history) (not h.session_credentials_allowed) (d h.history);
}

unfoldable pub no_location : Text → Bool
no_location [] = true
no_location (c ∷ t) = false

-- What was sent, and how the call ends.
abbrev pub Trace : Type 0
Trace = List Sent × Outcome

unfoldable pub and_before : Sent → Trace → Trace
and_before s t = (s ∷ t.0, t.1)

-- The rest of the loop's body: `more` is the next round, where the limit leaves one.
unfoldable pub after_reply :
    Net
    → (ℕ → Defaults)
    → (follow_redirects : Bool) → Hop
    → (more : Option (Hop → Trace)) → Option Reply
    → Trace
unfolding is_redirect no_location next_hop
after_reply net d follow h more none = ([], sender_raised)
after_reply net d follow h none (some r) =
    if not follow || not (is_redirect r.status_code) || no_location r.location
    then ([], returned r)
    else ([], limit_exceeded)
after_reply net d follow h (some more) (some r) =
    if not follow || not (is_redirect r.status_code) || no_location r.location
    then ([], returned r)
    else if net.validate h.history true (net.urljoin h.url r.location)
    then more (next_hop net h r)
    else ([], unsafe)

-- One round of the loop.
unfoldable pub round : Net → (ℕ → Defaults) → Bool → (more : Option (Hop → Trace)) → Hop → Trace
unfolding and_before after_reply sent_at
round net d follow more h =
    if net.validate h.history false h.url
    then and_before (sent_at d h) (after_reply net d follow h more (net.sender (sent_at d h)))
    else ([], unsafe)

-- `left` is how many redirects the limit leaves.
unfoldable pub rounds : Net → (ℕ → Defaults) → Bool → (left : ℕ) → Hop → Trace
unfolding round
rounds net d follow zero h = round net d follow none h
rounds net d follow (suc left) h =
    round net d follow (some (λ next. rounds net d follow left next)) h

unfoldable pub first_hop : (method url : Text) → Kwargs → Hop
first_hop method url kwargs = record {
  history = 0;
  method = method;
  url = url;
  kwargs = kwargs;
  session_credentials_allowed = true;
}

-- `_request_with_validated_redirects`; `method` is in upper case.
unfoldable pub request_with_validated_redirects :
    Net
    → (ℕ → Defaults)
    → (follow_redirects : Bool) → (max_redirects : ℕ) → (method url : Text) → Kwargs
    → Trace
unfolding rounds first_hop
request_with_validated_redirects net d follow max_redirects method url kwargs =
    rounds net d follow max_redirects (first_hop method url kwargs)
