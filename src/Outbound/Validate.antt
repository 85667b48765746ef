-- ===== src/Outbound/Validate.antt =====
-- `validate_outbound_url` of backend/outbound_security.py and its helpers.
use opportunity_radar.Prelude.{
  ℕ, Bool, true, false, not, ◌&&◌, ◌||◌, Option, none, some, List, [], ◌∷◌, ◌++◌, ltb, leb, ◌==◌,
  ◌>>=◌, if◌then◌else◌, Text, codes, text_eq, any, length, strip,
}
use opportunity_radar.Outbound.{lower}

-- What `urlsplit` and its properties give.
pub record Parsed : Type 0 where
  pub scheme : Text
  pub netloc : Text
  pub hostname : Option Text
  -- a username or a password is given
  pub has_credentials : Bool
  pub port : Option ℕ

-- An address, with the properties that `ipaddress` computes for it. The first five are those of an
-- IPv6 address: mapped IPv4, 6to4, Teredo, in one of the two NAT64 networks, and site-local.
pub record Address : Type 0 where
  pub is_v6 : Bool
  pub value : ℕ
  pub shown : Text
  pub is_ipv4_mapped : Bool
  pub is_sixtofour : Bool
  pub is_teredo : Bool
  pub is_nat64 : Bool
  pub is_site_local : Bool
  pub is_private : Bool
  pub is_loopback : Bool
  pub is_link_local : Bool
  pub is_multicast : Bool
  pub is_reserved : Bool
  pub is_unspecified : Bool
  pub is_global : Bool

-- One record of the resolver's answer.
pub data Answer : Type 0 where
  malformed : Answer
  other_family : Answer
  inet : (address_text : Text) → Answer

-- `urlsplit`, `ip_address`, the idna codec and the resolver: `none` is an exception.
pub record Platform : Type 0 where
  pub urlsplit : Text → Option Parsed
  pub ip_address : Text → Option Address
  pub idna : Text → Option Text
  pub resolver : Text → ℕ → Option (List Answer)

pub record Destination : Type 0 where
  pub url : Text
  pub scheme : Text
  pub hostname : Text
  pub port : ℕ
  pub addresses : List Address

-- One level of `if ...: raise UnsafeOutboundDestination(...)`.
abbrev pub refuse_if {ℓ} : {A : Type ℓ} → Bool → Option A → Option A
refuse_if b next = if b then none else next

is_label_char : ℕ → Bool
is_label_char c =
    (leb b'0' c && leb c b'9') || (leb b'a' c && leb c b'z') || (leb b'A' c && leb c b'Z')

-- The characters of a label after its first: the last is no hyphen.
label_tail : Text → Bool
unfolding is_label_char
label_tail [] = true
label_tail (c ∷ []) = is_label_char c
label_tail (c ∷ d ∷ t) = (is_label_char c || (c == b'-')) && label_tail (d ∷ t)

-- _DNS_LABEL
is_label : Text → Bool
unfolding label_tail
is_label [] = false
is_label (c ∷ t) = is_label_char c && leb (length t) 62 && label_tail t

-- ascii_host.split(".")
split_dots : Text → Text → List Text
split_dots label [] = label ∷ []
split_dots label (c ∷ t) =
    let closed = label ∷ split_dots [] t in
    let longer = split_dots (label ++ c ∷ []) t in if c == b'.' then closed else longer

-- candidate[:-1], if it ends with a dot
without_dot : Text → Text
without_dot [] = []
without_dot (c ∷ []) = if c == b'.' then [] else c ∷ []
without_dot (c ∷ d ∷ t) = c ∷ without_dot (d ∷ t)

check_host : Text → Option (Text × Option Address)
unfolding is_label split_dots
check_host host =
    refuse_if ((length host == 0) || ltb 253 (length host))
      (refuse_if (any (λ l. not (is_label l)) (split_dots [] host)) (some (host, none)))

normalize_candidate : Platform → Text → Option Address → Option (Text × Option Address)
unfolding without_dot check_host lower
normalize_candidate p candidate (some literal) = some (literal.shown, some literal)
normalize_candidate p candidate none = do
  ascii ← p.idna (without_dot candidate)
  check_host (lower ascii)

unfoldable pub normalize_hostname : Platform → Text → Option (Text × Option Address)
unfolding normalize_candidate
normalize_hostname p hostname =
    normalize_candidate p (lower hostname) (p.ip_address (lower hostname))

unfoldable pub read_answers : Platform → List Answer → Option (List Address)
read_answers p [] = some []
read_answers p (malformed ∷ rest) = none
read_answers p (other_family ∷ rest) = none
read_answers p (inet t ∷ rest) = do
  address ← p.ip_address t
  addresses ← read_answers p rest
  some (address ∷ addresses)

unfoldable pub some_address : List Address → Option (List Address)
some_address [] = none
some_address (a ∷ rest) = some (a ∷ rest)

unfoldable pub resolve_addresses : Platform → Text → ℕ → Option (List Address)
unfolding read_answers some_address
resolve_addresses p hostname port = do
  answers ← p.resolver hostname port
  addresses ← read_answers p answers
  some_address addresses

-- `_require_globally_routable`: nothing is raised.
unfoldable pub is_routable : Address → Bool
is_routable a =
    not (
      a.is_v6
      && (a.is_ipv4_mapped || a.is_sixtofour || a.is_teredo || a.is_nat64 || a.is_site_local))
    && not (
        a.is_private
        || a.is_loopback
        || a.is_link_local
        || a.is_multicast
        || a.is_reserved
        || a.is_unspecified
        || not a.is_global)

-- sorted by version, then by number
unfoldable pub before : Address → Address → Bool
before a b = if a.is_v6 then b.is_v6 && ltb a.value b.value else b.is_v6 || ltb a.value b.value

unfoldable pub insert_address : Address → List Address → List Address
unfolding before
insert_address a [] = a ∷ []
insert_address a (b ∷ rest) =
    let later = b ∷ insert_address a rest in
    if text_eq a.shown b.shown then b ∷ rest else if before a b then a ∷ b ∷ rest else later

unfoldable pub ordered : List Address → List Address
unfolding insert_address
ordered [] = []
ordered (a ∷ rest) = insert_address a (ordered rest)

unfoldable pub port_of : Parsed → ℕ
port_of u = elim u.port [
  | none ↦ (if text_eq (lower u.scheme) (codes "https") then 443 else 80)
  | some p ↦ p
]

-- The literal, or what the name resolves to.
unfoldable pub candidate_addresses : Platform → Text → ℕ → Option Address → Option (List Address)
unfolding resolve_addresses
candidate_addresses p host port (some literal) = some (literal ∷ [])
candidate_addresses p host port none = resolve_addresses p host port

unfoldable pub ends_with_colon : Text → Bool
ends_with_colon [] = false
ends_with_colon (c ∷ []) = c == b':'
ends_with_colon (c ∷ d ∷ t) = ends_with_colon (d ∷ t)

unfoldable pub is_web : Text → Bool
is_web scheme = text_eq scheme (codes "http") || text_eq scheme (codes "https")

unfoldable pub destination : Text → Parsed → Text → List Address → Option Destination
unfolding is_routable ordered port_of
destination url u host addresses = refuse_if (any (λ a. not (is_routable a)) addresses) (
    some record {
      url = url;
      scheme = lower u.scheme;
      hostname = host;
      port = port_of u;
      addresses = ordered addresses;
    })

unfoldable pub located : Platform → Text → Parsed → Text → Option Destination
unfolding normalize_hostname candidate_addresses destination
located p url u hostname = do
  (host, literal) ← normalize_hostname p hostname
  addresses ← candidate_addresses p host (port_of u) literal
  destination url u host addresses

-- The tests on the parts after the scheme: whether one of them raises.
unfoldable pub is_bad_location : (allowed_ports : List ℕ) → Parsed → (hostname : Text) → Bool
unfolding port_of ends_with_colon
is_bad_location allowed_ports u hostname =
    (length u.netloc == 0)
    || (length hostname == 0)
    || u.has_credentials
    || ends_with_colon u.netloc
    || any (λ c. c == b'%') hostname
    || not (any (λ q. port_of u == q) allowed_ports)

unfoldable pub check_parts :
    Platform → (allowed_ports : List ℕ) → Text → Parsed → Option Destination
unfolding is_web is_bad_location located
check_parts p allowed_ports url u = refuse_if (not (is_web (lower u.scheme))) (
    u.hostname >>= λ hostname.
    refuse_if (is_bad_location allowed_ports u hostname) (located p url u hostname))

-- `validate_outbound_url`: `none` is `UnsafeOutboundDestination`.
unfoldable pub validate_outbound_url :
    Platform → (allowed_ports : List ℕ) → Text → Option Destination
unfolding check_parts
validate_outbound_url p allowed_ports url =
    refuse_if
      ((length url == 0)
        || not (text_eq url (strip url))
        || any (λ c. leb c 32 || (c == 127)) url
        || any (λ c. c == b'\\') url)
      (p.urlsplit url >>= check_parts p allowed_ports url)
