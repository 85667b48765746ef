-- ===== src/Outbound/Tests.antt =====
-- Runs of backend/outbound_security.py on concrete inputs, and the theorems at such inputs.
use opportunity_radar.Prelude.{
  List, count_if, filter, ◌≤◌, ℕ, ◌≡◌, ◌⊎◌, refl, true, false, none, some, [], ◌∷◌, All, codes,
  text_eq, if◌then◌else◌, ◌==◌,
}
use opportunity_radar.Outbound.Redirects.{
  Kwargs, Defaults, Net, Trace, is_secret, remove_headers, request_with_validated_redirects,
}
use opportunity_radar.Outbound.Validate.{Address, inet, Platform, Destination}
use opportunity_radar.Outbound.Transport.{Connection}
use opportunity_radar.Outbound.Guard.{
  Route, passed, continued, guard, Finding, guard_each, is_continued, IsAllowed, guard-IsAllowed,
}
use opportunity_radar.Outbound.Safety.{CleanSent, hop_origin, request-HomeOrClean}
use opportunity_radar.Outbound.Limits.{Within, request-Within}

-- The first answer sends a POST to another host, which answers.
abbrev net : Net
net = record {
  validate = λ hop after t. true;
  urlsplit = λ t. record { scheme = codes "https"; hostname = some t; port = some 0 };
  urljoin = λ base t. t;
  sender =
      λ s. some record { status_code = if s.hop == 0 then 302 else 200; location = codes "b.org" };
}

abbrev defaults : ℕ → Defaults
defaults hop = record {
  params = none;
  auth = none;
  headers = (codes "Cookie", codes "c") ∷ [];
  cookies = none;
}

abbrev kwargs : Kwargs
kwargs = record {
  params = none;
  auth = some (codes "secret");
  cookies = none;
  headers = some ((codes "X-API-Key", codes "k") ∷ (codes "Accept", codes "*") ∷ []);
  form_data = none;
  json = some (codes "body");
  files = none;
  content = none;
}

abbrev trace : Trace
trace = request_with_validated_redirects net defaults true 5 (codes "POST") (codes "a.org") kwargs

removes_keys :
    remove_headers is_secret ((codes "X-API-Key", codes "k") ∷ (codes "Accept", codes "*") ∷ [])
    ≡ (codes "Accept", codes "*") ∷ []
unfolding remove_headers is_secret text_eq
removes_keys = refl

request-HomeOrClean_example :
    All (λ s. (hop_origin net s.url ≡ hop_origin net (codes "a.org")) ⊎ CleanSent s) trace.0
request-HomeOrClean_example =
    request-HomeOrClean net defaults true 5 (codes "POST") (codes "a.org") kwargs

request-Within_example : Within 6 trace
request-Within_example = request-Within net defaults 5 (codes "POST") (codes "a.org") kwargs

-- A public address, and a platform on which every name has it.
abbrev address : Address
address = record {
  is_v6 = false;
  value = 8;
  shown = codes "8.8.8.8";
  is_ipv4_mapped = false;
  is_sixtofour = false;
  is_teredo = false;
  is_nat64 = false;
  is_site_local = false;
  is_private = false;
  is_loopback = false;
  is_link_local = false;
  is_multicast = false;
  is_reserved = false;
  is_unspecified = false;
  is_global = true;
}

abbrev platform : Platform
platform = record {
  urlsplit = λ t. some record {
    scheme = codes "https";
    netloc = t;
    hostname = some t;
    has_credentials = false;
    port = none;
  };
  ip_address = λ t. if text_eq t (codes "8") then some address else none;
  idna = λ t. some t;
  resolver = λ t port. some (inet (codes "8") ∷ []);
}

abbrev public_destination : Destination
public_destination = record {
  url = codes "a.org";
  scheme = codes "https";
  hostname = codes "a.org";
  port = 443;
  addresses = address ∷ [];
}

abbrev connection : Connection
connection = record {
  host = address;
  port = 443;
  host_header = codes "a.org";
  server_hostname = some (codes "a.org");
}

abbrev route : Route
route = record { settled = false; can_mark = true; continues = true; aborts = true }

goes_on : (guard 5 (some 0) passed route).0 ≡ continued
unfolding guard
goes_on = refl

-- The second call finds the route settled.
abbrev findings : List Finding
findings =
    record { depth = some 0; validation = passed }
    ∷ record { depth = some 1; validation = passed }
    ∷ []

guard-IsAllowed_example :
    (count_if is_continued (guard_each 5 findings route) ≤ 1)
    × All (λ x. IsAllowed 5 x.0) (filter is_continued (guard_each 5 findings route))
guard-IsAllowed_example = guard-IsAllowed 5 findings route refl
