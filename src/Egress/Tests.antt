-- ===== src/Egress/Tests.antt =====
-- A CONNECT and a plain request through the proxy of backend/browser_egress_proxy.py.
use mathlib.Core.Option.{some-injective}
use opportunity_radar.Prelude.{
  ℕ, ◌≡◌, refl, true, false, none, some, List, [], ◌∷◌, ◌++◌, if◌then◌else◌, Text, codes, text_eq,
  starts_with, strip, All, All-append, subst,
}
use opportunity_radar.Outbound.{lower}
use opportunity_radar.Outbound.Validate.{
  Address, Platform, Destination, inet, validate_outbound_url,
}
use opportunity_radar.Egress.{
  crlf, Target, Urls, BrowserProxyRequest, split_crlf, parse_browser_proxy_request,
}
use opportunity_radar.Egress.Proxy.{
  Chunk, bytes, Network, handle_client, origin_form_request, origin_lines, sent_headers,
}
use opportunity_radar.Egress.Guarded.{IsGuarded, handle-IsGuarded}
use opportunity_radar.Egress.Lines.{is_break, IsLine}
use opportunity_radar.Egress.Parsed.{IsClean}
use opportunity_radar.Egress.Forwarded.{IsForwarded, split_crlf-origin}

abbrev address : Address
address = record {
  is_v6 = false;
  value = 8;
  shown = codes "8";
  is_ipv4_mapped = false;
  is_sixtofour = false;
  is_teredo = false;
  is_nat64 = false;
  is_site_local = false;
  is_private = false;
  is_loopback = false;
  is_link_local = false;
  is_multicast = false;
  is_reserved = false;
  is_unspecified = false;
  is_global = true;
}

-- Everything is at the host "a.org", with the port that the URL's scheme has.
abbrev platform : Platform
platform = record {
  urlsplit = λ t. some record {
    scheme = if starts_with t (codes "https") then codes "https" else codes "http";
    netloc = codes "a.org";
    hostname = some (codes "a.org");
    has_credentials = false;
    port = none;
  };
  ip_address = λ t. if text_eq t (codes "8") then some address else none;
  idna = λ t. some t;
  resolver = λ t port. some (inet (codes "8") ∷ []);
}

abbrev split_target_of : Text → Target
split_target_of t = record {
  scheme = codes "http";
  netloc = codes "a.org";
  path = t;
  query = [];
  fragment = [];
}

abbrev urls : Urls
urls = record {
  split_target = λ t. some (split_target_of t);
  is_authority = λ t. true;
  unsplit = λ path query. path ++ query;
}

abbrev network : Network
network = record { connects = true; first_send = true; second_send = true }

-- In two chunks, with the first byte of the tunnel after the header.
abbrev tunnel : List Chunk
tunnel =
    bytes (codes "CONNECT a.org:443 HTTP/1.1" ++ (13 ∷ []))
    ∷ bytes ((10 ∷ []) ++ crlf ++ codes "x")
    ∷ []

abbrev ports : List ℕ
ports = 80 ∷ 443 ∷ []

tunnelled : handle_client urls platform ports network tunnel ≡ record {
  status = some 200;
  connected = some (address, 443);
  is_tunnel = true;
  upstream = codes "x" ∷ [];
}
unfolding handle_client starts_with strip text_eq lower validate_outbound_url
tunnelled = refl

handle-IsGuarded_example : IsGuarded ports (handle_client urls platform ports network tunnel)
handle-IsGuarded_example = handle-IsGuarded urls platform ports network tunnel

-- The client's own Host, and what it says of the connection, are not sent on.
abbrev block : Text
block =
    codes "GET /a HTTP/1.1"
    ++ crlf
    ++ codes "Host: b"
    ++ crlf
    ++ codes "Connection: x"
    ++ crlf
    ++ codes "Accept: *"
    ++ crlf
    ++ crlf

abbrev request : BrowserProxyRequest
request = record {
  method = codes "GET";
  version = codes "HTTP/1.1";
  destination_url = codes "/a";
  upstream_target = codes "/a";
  headers = (codes "Host", codes "b") ∷ (codes "Accept", codes "*") ∷ [];
  buffered_body = [];
}

abbrev destination : Destination
destination = record {
  url = codes "/a";
  scheme = codes "http";
  hostname = codes "a.org";
  port = 80;
  addresses = address ∷ [];
}

parsed : parse_browser_proxy_request urls block [] ≡ some request
unfolding parse_browser_proxy_request text_eq lower
parsed = refl

-- A header that is folded is refused.
folded :
    parse_browser_proxy_request urls
      (codes "GET /a HTTP/1.1" ++ crlf ++ codes "A: b" ++ crlf ++ codes " c" ++ crlf ++ crlf)
      []
    ≡ none
unfolding parse_browser_proxy_request text_eq lower
folded = refl

clean : IsClean urls
clean = record {
  split = λ target u e h.
      subst (λ (v : Target). IsLine v.path × IsLine v.query)
        (some-injective (split_target_of target) u e) (h, tt);
  unsplit = λ path query hp hq. All-append (λ c. is_break c ≡ false) path query hp hq;
}

split_crlf-origin_example :
    (split_crlf (origin_form_request request destination)
      ≡ origin_lines request destination ++ [] ∷ [] ∷ [])
    × All IsLine (origin_lines request destination)
    × All IsForwarded (sent_headers request)
split_crlf-origin_example =
    split_crlf-origin urls clean block [] request destination parsed
      (refl, (refl, (refl, (refl, (refl, tt)))))
