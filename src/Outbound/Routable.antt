-- ===== src/Outbound/Routable.antt =====
-- What a destination that `validate_outbound_url` of backend/outbound_security.py returns is.
use opportunity_radar.Prelude.{
  ℕ, ◌≤◌, ◌≡◌, refl, subst, Bool, true, false, not, Option, none, some, List, [], ◌∷◌, ◌==◌, ◌>>=◌,
  arith, Text, any, All, length,
}
use opportunity_radar.Outbound.{lower}
use opportunity_radar.Outbound.Ordered.{
  NonEmpty, none_refused, ordered-Routable, ordered-NonEmpty, ordered-HasAll, has,
}
use opportunity_radar.Outbound.Validate.{
  Parsed, Address, Platform, Destination, refuse_if, normalize_hostname, some_address, read_answers,
  resolve_addresses, is_routable, ordered, port_of, candidate_addresses, is_web, destination,
  located, is_bad_location, check_parts, validate_outbound_url,
}

-- The destination is that of the URL: it has the URL's scheme, and its port or the scheme's; the URL
-- has no credentials; and the name is the URL's, normalized. `answer` is what the name stands for: the
-- literal address, or everything that the resolver answered. All of it passed the test, and the
-- destination has each address of it, in order.
pub record IsResolved (p : Platform) (url : Text) (d : Destination) : Type 0 where
  pub parts : Parsed
  pub parsed : p.urlsplit url ≡ some parts
  pub same_scheme : d.scheme ≡ lower parts.scheme
  pub same_port : d.port ≡ port_of parts
  pub no_credentials : parts.has_credentials ≡ false
  pub name : Text
  pub named : parts.hostname ≡ some name
  pub literal : Option Address
  pub normalized : normalize_hostname p name ≡ some (d.hostname, literal)
  pub answer : List Address
  pub answered : candidate_addresses p d.hostname d.port literal ≡ some answer
  pub all_routable : All (λ a. is_routable a ≡ true) answer
  pub all_kept : All (λ a. has d.addresses a ≡ true) answer
  pub arranged : d.addresses ≡ ordered answer

pub record IsPublic (p : Platform) (allowed_ports : List ℕ) (url : Text) (d : Destination)
    : Type 0 where
  pub same_url : d.url ≡ url
  pub web : is_web d.scheme ≡ true
  pub allowed_port : any (λ q. d.port == q) allowed_ports ≡ true
  pub some_address : 1 ≤ length d.addresses
  pub routable : All (λ a. is_routable a ≡ true) d.addresses
  pub resolved : IsResolved p url d

abbrev pub Holds {ℓ} : {A : Type ℓ} → (A → Type 0) → Option A → Type 0
Holds P none = Unit
Holds P (some a) = P a

pub Holds-bind {ℓ κ} :
    {A : Type ℓ} {B : Type κ} (P : A → Type 0) (Q : B → Type 0) (o : Option A) (f : A → Option B)
    → Holds P o
    → ((a : A) → P a → Holds Q (f a))
    → Holds Q (o >>= f)
Holds-bind P Q none f h next = tt
Holds-bind P Q (some a) f h next = next a h

pub Holds-any {ℓ} : {A : Type ℓ} (o : Option A) → Holds (λ a. Unit) o
Holds-any none = tt
Holds-any (some a) = tt

pub Holds-refuse {ℓ} :
    {A : Type ℓ} (Q : A → Type 0) (b : Bool) (o : Option A)
    → (b ≡ false → Holds Q o)
    → Holds Q (refuse_if b o)
Holds-refuse Q true o h = tt
Holds-refuse Q false o h = h refl

Holds-equal :
    {A : Type 0} (P : A → Type 0) (o : Option A) → Holds P o → Holds (λ a. (o ≡ some a) × P a) o
Holds-equal P none h = tt
Holds-equal P (some a) h = (refl, h)

some_address-NonEmpty : (l : List Address) → Holds NonEmpty (some_address l)
unfolding some_address
some_address-NonEmpty [] = tt
some_address-NonEmpty (a ∷ rest) = omega arith

candidate-NonEmpty :
    (p : Platform) (host : Text) (port : ℕ) (literal : Option Address)
    → Holds NonEmpty (candidate_addresses p host port literal)
unfolding candidate_addresses resolve_addresses
candidate-NonEmpty p host port (some a) = omega arith
candidate-NonEmpty p host port none =
    Holds-bind (λ a. Unit) NonEmpty (p.resolver host port) _ (Holds-any (p.resolver host port))
      (λ answers _.
        Holds-bind (λ a. Unit) NonEmpty (read_answers p answers) _
          (Holds-any (read_answers p answers)) (λ l _. some_address-NonEmpty l))

module _ (p : Platform) (allowed_ports : List ℕ) (url : Text) (u : Parsed) (name : Text)
    (parsed : p.urlsplit url ≡ some u) (named : u.hostname ≡ some name)
    (web : is_web (lower u.scheme) ≡ true)
    (allowed : any (λ q. port_of u == q) allowed_ports ≡ true)
    (clean : u.has_credentials ≡ false) where
  destination-IsPublic :
      (host : Text) (literal : Option Address) (l : List Address)
      → normalize_hostname p name ≡ some (host, literal)
      → candidate_addresses p host (port_of u) literal ≡ some l
      → NonEmpty l
      → Holds (IsPublic p allowed_ports url) (destination url u host l)
  unfolding destination
  destination-IsPublic host literal l normalized from n =
      Holds-refuse (IsPublic p allowed_ports url) (any (λ a. not (is_routable a)) l) _ (λ h.
        record {
          same_url = refl;
          web = web;
          allowed_port = allowed;
          some_address = ordered-NonEmpty l n;
          routable = ordered-Routable l (none_refused l h);
          resolved = record {
            parts = u;
            parsed = parsed;
            same_scheme = refl;
            same_port = refl;
            no_credentials = clean;
            name = name;
            named = named;
            literal = literal;
            normalized = normalized;
            answer = l;
            answered = from;
            all_routable = none_refused l h;
            all_kept = ordered-HasAll l;
            arranged = refl;
          };
        })

  located-IsPublic : Holds (IsPublic p allowed_ports url) (located p url u name)
  unfolding located
  located-IsPublic =
      Holds-bind (λ r. (normalize_hostname p name ≡ some r) × Unit) (IsPublic p allowed_ports url)
        (normalize_hostname p name) _ (Holds-equal (λ r. Unit) _ (Holds-any _))
        (λ r e.
          Holds-bind (λ l. (candidate_addresses p r.0 (port_of u) r.1 ≡ some l) × NonEmpty l)
            (IsPublic p allowed_ports url) (candidate_addresses p r.0 (port_of u) r.1) _
            (Holds-equal NonEmpty _ (candidate-NonEmpty p r.0 (port_of u) r.1))
            (λ l n. destination-IsPublic r.0 r.1 l e.0 n.0 n.1))

not-false : (b : Bool) → not b ≡ false → b ≡ true
not-false true h = refl
not-false false h = cc h

web-lem : (t : Text) → not (is_web t) ≡ false → is_web t ≡ true
web-lem t h = ground arith

allowed-lem :
    (allowed_ports : List ℕ) (u : Parsed) (hostname : Text)
    → is_bad_location allowed_ports u hostname ≡ false
    → any (λ q. port_of u == q) allowed_ports ≡ true
unfolding is_bad_location
allowed-lem allowed_ports u hostname h =
    not-false (any (λ q. port_of u == q) allowed_ports) (ground arith)

clean-lem :
    (allowed_ports : List ℕ) (u : Parsed) (hostname : Text)
    → is_bad_location allowed_ports u hostname ≡ false
    → u.has_credentials ≡ false
unfolding is_bad_location
clean-lem allowed_ports u hostname h = ground (arith, h)

check_parts-IsPublic :
    (p : Platform) (allowed_ports : List ℕ) (url : Text) (u : Parsed)
    → p.urlsplit url ≡ some u
    → Holds (IsPublic p allowed_ports url) (check_parts p allowed_ports url u)
unfolding check_parts
check_parts-IsPublic p allowed_ports url u parsed =
    Holds-refuse (IsPublic p allowed_ports url) (not (is_web (lower u.scheme))) _ (λ web.
      Holds-bind (λ name. (u.hostname ≡ some name) × Unit) (IsPublic p allowed_ports url) u.hostname
        _ (Holds-equal (λ name. Unit) u.hostname (Holds-any u.hostname))
        (λ name named.
          Holds-refuse (IsPublic p allowed_ports url) (is_bad_location allowed_ports u name)
            (located p url u name)
            (λ h.
              located-IsPublic p allowed_ports url u name parsed named.0
                (web-lem (lower u.scheme) web) (allowed-lem allowed_ports u name h)
                (clean-lem allowed_ports u name h))))

pub validate-IsPublic :
    (p : Platform) (allowed_ports : List ℕ) (url : Text) (d : Destination)
    → validate_outbound_url p allowed_ports url ≡ some d
    → IsPublic p allowed_ports url d
unfolding validate_outbound_url
validate-IsPublic p allowed_ports url d e = subst (Holds (IsPublic p allowed_ports url)) e (
    Holds-refuse (IsPublic p allowed_ports url) _
      (p.urlsplit url >>= check_parts p allowed_ports url)
      (λ _.
        Holds-bind (λ u. (p.urlsplit url ≡ some u) × Unit) (IsPublic p allowed_ports url)
          (p.urlsplit url) (check_parts p allowed_ports url)
          (Holds-equal (λ u. Unit) (p.urlsplit url) (Holds-any (p.urlsplit url)))
          (λ u parsed. check_parts-IsPublic p allowed_ports url u parsed.0)))
