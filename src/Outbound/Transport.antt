-- ===== src/Outbound/Transport.antt =====
-- `_PinnedHTTPAdapter` of backend/outbound_security.py: the address that a connection is made to.
use opportunity_radar.Prelude.{
  ℕ, ◌≡◌, Bool, true, Option, none, some, List, [], ◌∷◌, ◌++◌, ◌==◌, if◌then◌else◌, Text, codes,
  text_eq, any,
}
use opportunity_radar.Outbound.Validate.{
  Address, Platform, Destination, refuse_if, is_routable, validate_outbound_url,
}
use opportunity_radar.Outbound.Routable.{IsPublic}

-- What the connection pool is asked for. `server_hostname` is the name that TLS checks.
pub record Connection : Type 0 where
  pub host : Address
  pub port : ℕ
  pub host_header : Text
  pub server_hostname : Option Text

is_https : Destination → Bool
is_https d = text_eq d.scheme (codes "https")

-- `_host_header`; `show` is `str` of a port.
host_header : (show : ℕ → Text) → Destination → Text
unfolding is_https
host_header show d =
    let hostname =
      if any (λ c. c == b':') d.hostname
      then codes "[" ++ d.hostname ++ codes "]"
      else d.hostname in
    if d.port == (if is_https d then 443 else 80)
    then hostname
    else hostname ++ codes ":" ++ show d.port

connect : (show : ℕ → Text) → Destination → List Address → Option Connection
unfolding host_header
connect show d [] = none
connect show d (a ∷ rest) = some record {
  host = a;
  port = d.port;
  host_header = host_header show d;
  server_hostname = if is_https d then some d.hostname else none;
}

pinned : (show : ℕ → Text) → Option Destination → Option Connection
unfolding connect
pinned show none = none
pinned show (some d) = connect show d d.addresses

-- `get_connection_with_tls_context`; `has_proxy` is whether `select_proxy` finds one. `none` is an
-- exception.
unfoldable pub get_connection :
    Platform
    → (show : ℕ → Text) → (allowed_ports : List ℕ) → (has_proxy : Bool) → Text
    → Option Connection
unfolding pinned
get_connection p show allowed_ports has_proxy url =
    refuse_if has_proxy (pinned show (validate_outbound_url p allowed_ports url))

-- A connection goes straight to the first address of what the name stands for when it is made, all of
-- which was tested, on an allowed port, under the name that was validated.
pub record IsPinned (p : Platform) (allowed_ports : List ℕ) (url : Text) (c : Connection)
    : Type 0 where
  pub destination : Destination
  pub public : IsPublic p allowed_ports url destination
  pub others : List Address
  pub first : destination.addresses ≡ c.host ∷ others
  pub same_port : c.port ≡ destination.port
  pub same_name :
      c.server_hostname
      ≡ (if text_eq destination.scheme (codes "https") then some destination.hostname else none)
  pub routable : is_routable c.host ≡ true

abbrev Connects : Platform → List ℕ → Text → Option Connection → Type 0
Connects p allowed_ports url none = Unit
Connects p allowed_ports url (some c) = IsPinned p allowed_ports url c
