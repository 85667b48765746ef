-- ===== src/Egress.antt =====
-- The parser of backend/browser_egress_proxy.py. Bytes are numbers; what `urlsplit` and `urlunsplit`
-- make of a target is an argument.
pub mod Proxy
pub mod Guarded
pub mod Lines
pub mod Parsed
pub mod Forwarded
mod Tests
use opportunity_radar.Prelude.{
  ℕ, ◌+◌, ◌-◌, Bool, true, false, not, ◌&&◌, ◌||◌, Option, none, some, List, [], ◌∷◌, ◌++◌, map,
  filter, take, any, all, length, leb, ltb, ◌==◌, ◌>>=◌, if◌then◌else◌, count_if, Text, codes,
  text_eq, starts_with,
}
use opportunity_radar.Outbound.{lower}
use opportunity_radar.Outbound.Validate.{refuse_if}

-- MAX_PROXY_HEADER_BYTES
abbrev pub max_header_bytes : ℕ
max_header_bytes = 65_536

-- b"\r\n"
abbrev pub crlf : Text
crlf = 13 ∷ 10 ∷ []

abbrev with_first : ℕ → List Text → List Text
with_first c [] = (c ∷ []) ∷ []
with_first c (line ∷ lines) = (c ∷ line) ∷ lines

-- value.split(b"\r\n")
unfoldable pub split_crlf : Text → List Text
split_crlf [] = [] ∷ []
split_crlf (c ∷ []) = (c ∷ []) ∷ []
split_crlf (c ∷ d ∷ t) =
    let next = split_crlf t in
    let longer = with_first c (split_crlf (d ∷ t)) in
    if (c == 13) && (d == 10) then [] ∷ next else longer

-- value.split(b" ")
unfoldable pub split_space : Text → List Text
split_space [] = [] ∷ []
split_space (c ∷ t) = let next = split_space t in if c == 32 then [] ∷ next else with_first c next

-- value.split(b":", 1), if there is a colon
unfoldable pub split_colon : Text → Option (Text × Text)
split_colon [] = none
split_colon (c ∷ t) =
    let rest = split_colon t in
    if c == b':' then some ([], t) else (do (name, value) ← rest; some (c ∷ name, value))

abbrev pub is_digit_or_letter : ℕ → Bool
is_digit_or_letter c =
    (leb b'0' c && leb c b'9') || (leb b'A' c && leb c b'Z') || (leb b'a' c && leb c b'z')

-- _HTTP_TOKEN
unfoldable pub is_token_char : ℕ → Bool
is_token_char c = is_digit_or_letter c || any (λ d. c == d) (codes "!#$%&'*+.^_`|~-")

unfoldable pub is_token : Text → Bool
unfolding is_token_char
is_token name = ltb 0 (length name) && all is_token_char name

abbrev pub is_blank_char : ℕ → Bool
is_blank_char c = (c == 32) || (c == 9)

-- value.strip(b" \t")
unfoldable pub lstrip_blanks : Text → Text
lstrip_blanks [] = []
lstrip_blanks (c ∷ t) = let rest = lstrip_blanks t in if is_blank_char c then rest else c ∷ t

unfoldable pub rstrip_blanks : Text → Text
rstrip_blanks [] = []
rstrip_blanks (c ∷ t) =
    let rest = rstrip_blanks t in if is_blank_char c && (length rest == 0) then [] else c ∷ rest

abbrev pub Header : Type 0
Header = Text × Text

unfoldable pub is_host : Text → Bool
unfolding lower
is_host name = text_eq (lower name) (codes "host")

unfoldable pub is_connection : Text → Bool
unfolding lower
is_connection name =
    any (text_eq (lower name))
      (codes "proxy-authorization" ∷ codes "proxy-connection" ∷ codes "connection" ∷ [])

unfoldable pub is_folded : Text → Bool
is_folded [] = true
is_folded (c ∷ t) = is_blank_char c

unfoldable pub is_unsafe_value : Text → Bool
is_unsafe_value value = any (λ c. (c == 0) || (c == 13) || (c == 10)) value

-- One turn of the loop over the lines, up to the tests on the name.
unfoldable pub read_header : Text → Option Header
unfolding is_folded split_colon is_token is_unsafe_value lstrip_blanks rstrip_blanks
read_header line = refuse_if (is_folded line) (
    split_colon line >>= λ h.
    refuse_if (not (is_token h.0) || is_unsafe_value h.1)
      (some (h.0, rstrip_blanks (lstrip_blanks h.1))))

unfoldable pub read_headers : List Text → Option (List Header)
unfolding read_header
read_headers [] = some []
read_headers (line ∷ lines) = do h ← read_header line; rest ← read_headers lines; some (h ∷ rest)

-- What is forwarded of the headers: two headers of the host are refused.
unfoldable pub forwarded_headers : List Text → Option (List Header)
unfolding read_headers is_host is_connection
forwarded_headers lines = do
  headers ← read_headers lines
  refuse_if (ltb 1 (count_if (λ (h : Header). is_host h.0) headers))
      (some (filter (λ (h : Header). not (is_connection h.0)) headers))

-- What `urlsplit` gives of an absolute target.
pub record Target : Type 0 where
  pub scheme : Text
  pub netloc : Text
  pub path : Text
  pub query : Text
  pub fragment : Text

-- `none` is a ValueError.
pub record Urls : Type 0 where
  pub split_target : Text → Option Target
  -- whether an authority has a host and a valid port
  pub is_authority : Text → Bool
  -- `urlunsplit` of a path and a query alone
  pub unsplit : (path query : Text) → Text

pub record BrowserProxyRequest : Type 0 where
  pub method : Text
  pub version : Text
  pub destination_url : Text
  pub upstream_target : Text
  pub headers : List Header
  pub buffered_body : Text

abbrev pub connect : Text
connect = codes "CONNECT"

-- _ALLOWED_METHODS
abbrev pub allowed_methods : List Text
allowed_methods =
    connect
    ∷ codes "DELETE"
    ∷ codes "GET"
    ∷ codes "HEAD"
    ∷ codes "OPTIONS"
    ∷ codes "PATCH"
    ∷ codes "POST"
    ∷ codes "PUT"
    ∷ []

unfoldable pub is_allowed_method : Text → Bool
is_allowed_method method = any (text_eq method) allowed_methods

unfoldable pub is_supported_version : Text → Bool
is_supported_version version =
    text_eq version (codes "HTTP/1.0") || text_eq version (codes "HTTP/1.1")

unfoldable pub is_unsafe_target : Text → Bool
is_unsafe_target target = any (λ c. leb c 32 || (c == 127)) target

unfoldable pub is_ascii : Text → Bool
is_ascii t = all (λ c. ltb c 128) t

-- Upper case, as far as ASCII.
unfoldable pub upper : Text → Text
upper t = map (λ c. if leb b'a' c && leb c b'z' then c - 32 else c) t

-- The tests on the request line, by its parts.
unfoldable pub line_parts : (line : Text) → List Text → Option (Text × Text × Text)
unfolding is_allowed_method is_supported_version is_unsafe_target is_ascii upper
line_parts line (method ∷ target ∷ version ∷ []) = refuse_if (not (is_ascii line)) (
    refuse_if (not (is_allowed_method (upper method)) || not (text_eq method (upper method))) (
      refuse_if (not (is_supported_version version))
        (refuse_if (is_unsafe_target target) (some (method, target, version)))))
line_parts line _ = none

unfoldable pub request_line : Text → Option (Text × Text × Text)
unfolding split_space line_parts
request_line line = line_parts line (split_space line)

-- "/", "?", "#", "@"
unfoldable pub has_separator : Text → Bool
has_separator target = any (λ c. any (λ d. c == d) (codes "/?#@")) target

-- The URL to validate and the target to ask for upstream.
unfoldable pub destination_of : Urls → (method target : Text) → Option (Text × Text)
unfolding has_separator lower
destination_of urls method target =
    if text_eq method connect
    then refuse_if (has_separator target || not (urls.is_authority target))
        (some (codes "https://" ++ target ++ codes "/", target))
    else urls.split_target target >>= λ u.
        refuse_if
          (not (text_eq (lower u.scheme) (codes "http"))
            || (length u.netloc == 0)
            || not (length u.fragment == 0))
          (some (target, urls.unsplit (if length u.path == 0 then codes "/" else u.path) u.query))

-- From the lines of the header.
unfoldable pub parse_lines : Urls → (buffered_body : Text) → List Text → Option BrowserProxyRequest
unfolding request_line forwarded_headers destination_of
parse_lines urls buffered_body [] = none
parse_lines urls buffered_body (line ∷ lines) = refuse_if (length line == 0) (
    request_line line >>= λ r. forwarded_headers lines >>= λ headers.
    destination_of urls r.0 r.1 >>= λ d. some record {
      method = r.0;
      version = r.2;
      destination_url = d.0;
      upstream_target = d.1;
      headers = headers;
      buffered_body = buffered_body;
    })

-- What stands before the empty line that ends a header.
unfoldable pub header_text : Text → Option Text
header_text [] = none
header_text (c ∷ t) =
    let rest = header_text t in
    if text_eq (c ∷ t) (crlf ++ crlf) then some [] else (do text ← rest; some (c ∷ text))

-- `parse_browser_proxy_request`: `none` is a BrowserProxyProtocolError.
unfoldable pub parse_browser_proxy_request :
    Urls → (header_block buffered_body : Text) → Option BrowserProxyRequest
unfolding split_crlf parse_lines header_text
parse_browser_proxy_request urls header_block buffered_body =
    refuse_if (ltb max_header_bytes (length header_block))
      (header_text header_block >>= λ text. parse_lines urls buffered_body (split_crlf text))
