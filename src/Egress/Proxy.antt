-- ===== src/Egress/Proxy.antt =====
-- A client of backend/browser_egress_proxy.py, from its first bytes to what is sent upstream.
use opportunity_radar.Prelude.{
  ℕ, zero, suc, Bool, false, not, ◌||◌, Option, none, some, List, [], ◌∷◌, ◌++◌, map, filter, any,
  length, leb, ◌==◌, ◌>>=◌, if◌then◌else◌, Text, codes, text_eq, starts_with, show,
}
use opportunity_radar.Outbound.Validate.{Platform, Address, Destination, validate_outbound_url}
use opportunity_radar.Egress.{
  max_header_bytes, crlf, connect, Header, is_host, Urls, BrowserProxyRequest,
  parse_browser_proxy_request,
}

-- `authorize_browser_proxy_request`
unfoldable pub authorize_browser_proxy_request :
    Platform → (allowed_ports : List ℕ) → BrowserProxyRequest → Option Destination
unfolding validate_outbound_url
authorize_browser_proxy_request p allowed_ports request =
    validate_outbound_url p
      (if text_eq request.method connect
        then filter (λ q. q == 443) allowed_ports
        else allowed_ports)
      request.destination_url

-- The value of the Host header.
unfoldable pub host_value : Destination → Text
host_value d =
    let hostname =
      if any (λ c. c == b':') d.hostname
      then codes "[" ++ d.hostname ++ codes "]"
      else d.hostname in
    let default_port = if text_eq d.scheme (codes "https") then 443 else 80 in
    if d.port == default_port then hostname else hostname ++ codes ":" ++ codes (show d.port)

unfoldable pub header_line : Header → Text
header_line (name, value) = name ++ codes ": " ++ value

-- The headers of the client that are sent on.
unfoldable pub sent_headers : BrowserProxyRequest → List Header
unfolding is_host
sent_headers request = filter (λ (h : Header). not (is_host h.0)) request.headers

unfoldable pub origin_lines : BrowserProxyRequest → Destination → List Text
unfolding host_value header_line sent_headers
origin_lines request d =
    (request.method ++ codes " " ++ request.upstream_target ++ codes " " ++ request.version)
      ∷ (codes "Host: " ++ host_value d)
      ∷ map header_line (sent_headers request)
    ++ codes "Connection: close" ∷ []

-- b"\r\n".join(lines)
unfoldable pub join_crlf : List Text → Text
join_crlf [] = []
join_crlf (line ∷ []) = line
join_crlf (line ∷ next ∷ lines) = line ++ (crlf ++ join_crlf (next ∷ lines))

-- `_origin_form_request`
unfoldable pub origin_form_request : BrowserProxyRequest → Destination → Text
unfolding origin_lines join_crlf
origin_form_request request d = join_crlf (origin_lines request d) ++ (crlf ++ crlf)

abbrev skip : ℕ → Text → Text
skip zero t = t
skip (suc n) [] = []
skip (suc n) (c ∷ t) = skip n t

-- The bytes up to and with the first empty line, and those after it.
unfoldable pub find_end : Text → Option (Text × Text)
unfolding starts_with
find_end [] = none
find_end (c ∷ t) =
    let rest = find_end t in
    if starts_with (c ∷ t) (crlf ++ crlf)
    then some (crlf ++ crlf, skip 4 (c ∷ t))
    else (do (header, buffered) ← rest; some (c ∷ header, buffered))

-- What one `recv` gives: bytes, none of them at the end of the stream, or an OSError.
pub data Chunk : Type 0 where
  bytes : Text → Chunk
  broken : Chunk

-- How `_receive_proxy_header` ends: with a header and what came after it, with a
-- BrowserProxyProtocolError, or with an OSError.
pub data Received : Type 0 where
  header : (block buffered : Text) → Received
  unreceived : Received
  lost : Received

-- One turn of the loop, up to its `recv`.
unfoldable pub received_or : Text → Received → Received
unfolding find_end
received_or received next = elim (find_end received) [
  | some (block, buffered) ↦ header block buffered
  | none ↦ (if leb max_header_bytes (length received) then unreceived else next)
]

-- `_receive_proxy_header`, from the bytes that came. A client that sends no more is awaited until
-- the timeout.
unfoldable pub receive_proxy_header : Text → List Chunk → Received
unfolding received_or
receive_proxy_header received [] = received_or received lost
receive_proxy_header received (broken ∷ chunks) = received_or received lost
receive_proxy_header received (bytes chunk ∷ chunks) =
    let rest = receive_proxy_header (received ++ chunk) chunks in
    received_or received (if length chunk == 0 then unreceived else rest)

-- What a client leads to: the last status that the proxy itself answers (an error, or that a tunnel
-- is established), the address and the port that are connected to, and the bytes that are sent
-- there before any are pumped.
pub record Handled : Type 0 where
  pub status : Option ℕ
  pub connected : Option (Address × ℕ)
  pub is_tunnel : Bool
  pub upstream : List Text

abbrev failed : ℕ → Handled
failed status = record { status = some status; connected = none; is_tunnel = false; upstream = [] }

-- What `connect` and the two sends after it do: whether they raise no OSError.
pub record Network : Type 0 where
  pub connects : Bool
  pub first_send : Bool
  pub second_send : Bool

abbrev unless_empty : Text → List Text
unless_empty [] = []
unless_empty (c ∷ t) = (c ∷ t) ∷ []

-- After the connection: the first send is that of the established tunnel to the client, or that of
-- the request; the second is that of what the client sent after its header.
unfoldable pub relay : Network → BrowserProxyRequest → Destination → Address → Handled
unfolding origin_form_request
relay n request d address =
    let is_tunnel = text_eq request.method connect in
    let head = if is_tunnel then [] else origin_form_request request d ∷ [] in
    let established = if is_tunnel then some 200 else none in
    let handled : Option ℕ → List Text → Handled = λ status upstream. record {
      status = status;
      connected = some (address, d.port);
      is_tunnel = is_tunnel;
      upstream = upstream;
    } in
    if not n.first_send
    then handled (some 502) []
    else if (length request.buffered_body == 0) || n.second_send
    then handled established (head ++ unless_empty request.buffered_body)
    else handled (some 502) head

-- `connect_pinned_destination`: the first address, without another lookup
unfoldable pub connect_pinned : Network → BrowserProxyRequest → Destination → List Address → Handled
unfolding relay
connect_pinned n request d [] = failed 502
connect_pinned n request d (address ∷ addresses) =
    if n.connects then relay n request d address else failed 502

unfoldable pub authorized : Network → BrowserProxyRequest → Option Destination → Handled
unfolding connect_pinned
authorized n request none = failed 403
authorized n request (some d) = connect_pinned n request d d.addresses

unfoldable pub requested :
    Platform → (allowed_ports : List ℕ) → Network → Option BrowserProxyRequest → Handled
unfolding authorized authorize_browser_proxy_request
requested p allowed_ports n none = failed 403
requested p allowed_ports n (some request) =
    authorized n request (authorize_browser_proxy_request p allowed_ports request)

unfoldable pub answered : Urls → Platform → (allowed_ports : List ℕ) → Network → Received → Handled
unfolding requested parse_browser_proxy_request
answered urls p allowed_ports n (header block buffered) =
    requested p allowed_ports n (parse_browser_proxy_request urls block buffered)
answered urls p allowed_ports n unreceived = failed 403
answered urls p allowed_ports n lost = failed 502

-- `_handle_client`, up to `_pump_bidirectionally`
unfoldable pub handle_client :
    Urls → Platform → (allowed_ports : List ℕ) → Network → List Chunk → Handled
unfolding answered receive_proxy_header
handle_client urls p allowed_ports n chunks =
    answered urls p allowed_ports n (receive_proxy_header [] chunks)
