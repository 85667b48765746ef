-- ===== src/Egress/Forwarded.antt =====
-- What the proxy of backend/browser_egress_proxy.py sends on of a request.
use opportunity_radar.Prelude.{
  ◌≡◌, refl, subst, true, false, not, some, List, [], ◌∷◌, ◌++◌, filter, map, any, ◌==◌,
  if◌then◌else◌, if_cases, arith, All, All-append, Text, codes, text_eq, show, show-All,
  is_digit_code,
}
use opportunity_radar.Outbound.Validate.{Destination}
use opportunity_radar.Outbound.Routable.{Holds}
use opportunity_radar.Egress.{
  Header, is_host, is_connection, split_crlf, Urls, BrowserProxyRequest,
  parse_browser_proxy_request,
}
use opportunity_radar.Egress.Proxy.{
  header_line, sent_headers, host_value, origin_lines, origin_form_request,
}
use opportunity_radar.Egress.Lines.{is_break, IsLine, is_line, is_line-lem, IsKept, join-split}
use opportunity_radar.Egress.Parsed.{
  IsParsed, IsClean, parse-IsParsed, method-IsLine, version-IsLine,
}

-- A header that is sent on: its line is one line, and it is neither that of the host nor one of the
-- connection.
abbrev pub IsForwarded : Header → Type 0
IsForwarded h = IsLine (header_line h) × (is_host h.0 ≡ false) × (is_connection h.0 ≡ false)

append-IsLine : (s t : Text) → IsLine s → IsLine t → IsLine (s ++ t)
append-IsLine s t hs ht = All-append (λ c. is_break c ≡ false) s t hs ht

digits-IsLine : (t : Text) → All (λ c. is_digit_code c ≡ true) t → IsLine t
unfolding is_digit_code
digits-IsLine [] h = tt
digits-IsLine (c ∷ t) h = (ground (arith, h.0), digits-IsLine t h.1)

host-IsLine : (d : Destination) → IsLine d.hostname → IsLine (host_value d)
unfolding host_value
host-IsLine d h =
    let hostname =
      if any (λ c. c == b':') d.hostname
      then codes "[" ++ d.hostname ++ codes "]"
      else d.hostname in
    let hl : IsLine hostname =
      if_cases IsLine (any (λ c. c == b':') d.hostname)
        (λ _. append-IsLine (codes "[" ++ d.hostname) (codes "]") (refl, h) (refl, tt)) (λ _. h) in
    if_cases IsLine (d.port == (if text_eq d.scheme (codes "https") then 443 else 80)) (λ _. hl)
      (λ _.
        append-IsLine (hostname ++ codes ":") (codes (show d.port))
          (append-IsLine hostname (codes ":") hl (refl, tt))
          (digits-IsLine (codes (show d.port)) (show-All d.port)))

sent-IsForwarded :
    (headers : List Header)
    → All IsKept headers
    → All IsForwarded (filter (λ (h : Header). not (is_host h.0)) headers)
sent-IsForwarded [] h = tt
sent-IsForwarded (x ∷ headers) h =
    if_cases (All IsForwarded) (not (is_host x.0))
      (λ keep. ((h.0.0, ground (arith, keep), h.0.1), sent-IsForwarded headers h.1))
      (λ _. sent-IsForwarded headers h.1)

request_line-IsLine :
    (request : BrowserProxyRequest)
    → IsParsed request
    → IsLine
        (request.method ++ codes " " ++ request.upstream_target ++ codes " " ++ request.version)
request_line-IsLine request h =
    let method =
      append-IsLine request.method (codes " ") (method-IsLine request.method h.method) (refl, tt) in
    let target =
      append-IsLine (request.method ++ codes " ") request.upstream_target method h.target in
    let spaced =
      append-IsLine (request.method ++ codes " " ++ request.upstream_target) (codes " ") target
        (refl, tt) in
    append-IsLine (request.method ++ codes " " ++ request.upstream_target ++ codes " ")
      request.version spaced (version-IsLine request.version h.version)

closed-IsLine :
    (headers : List Header)
    → All IsForwarded headers
    → All IsLine (map header_line headers ++ codes "Connection: close" ∷ [])
unfolding is_line
closed-IsLine [] h = (is_line-lem (codes "Connection: close") refl, tt)
closed-IsLine (x ∷ headers) h = (h.0.0, closed-IsLine headers h.1)

-- What is sent upstream for a request that the parser returns, splits into exactly the lines that
-- the proxy wrote, and the two empty ones of the end, as long as `urlsplit` and `urlunsplit` bring
-- no carriage return and no line feed in and the host name has none: one request line, the Host of
-- the destination that was validated, headers of the request that the parser returned, and
-- `Connection: close`. None of these lines holds a carriage return or a line feed, not even alone; and
-- none of those headers names the host or the connection.
pub split_crlf-origin :
    (urls : Urls)
    → IsClean urls
    → (block body : Text) (request : BrowserProxyRequest) (d : Destination)
    → parse_browser_proxy_request urls block body ≡ some request
    → IsLine d.hostname
    → (split_crlf (origin_form_request request d) ≡ origin_lines request d ++ [] ∷ [] ∷ [])
      × All IsLine (origin_lines request d)
      × All IsForwarded (sent_headers request)
unfolding origin_form_request origin_lines sent_headers is_line
split_crlf-origin urls clean block body request d e h =
    let parsed : IsParsed request =
      subst (Holds IsParsed) e (parse-IsParsed urls clean block body) in
    let sent = sent-IsForwarded request.headers parsed.headers in
    let host =
      append-IsLine (codes "Host: ") (host_value d) (is_line-lem (codes "Host: ") refl)
        (host-IsLine d h) in
    let closed = closed-IsLine (sent_headers request) sent in
    let first = request_line-IsLine request parsed in
    (
      join-split
          ((codes "Host: " ++ host_value d)
            ∷ (map header_line (sent_headers request) ++ codes "Connection: close" ∷ []))
          (request.method ++ codes " " ++ request.upstream_target ++ codes " " ++ request.version)
          (first, (host, closed)),
      (first, (host, closed)),
      sent,
    )
