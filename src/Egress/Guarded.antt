-- ===== src/Egress/Guarded.antt =====
-- Where the proxy of backend/browser_egress_proxy.py connects.
use opportunity_radar.Prelude.{
  ℕ, ◌≡◌, refl, Bool, true, false, not, ◌||◌, Option, none, some, List, [], ◌∷◌, filter, any,
  length, ◌==◌, if◌then◌else◌, if_cases, arith, All, text_eq,
}
use opportunity_radar.Outbound.Validate.{Platform, Address, Destination, is_routable}
use opportunity_radar.Outbound.Routable.{IsPublic, validate-IsPublic}
use opportunity_radar.Egress.{connect, Urls, BrowserProxyRequest, parse_browser_proxy_request}
use opportunity_radar.Egress.Proxy.{
  authorize_browser_proxy_request, Chunk, Received, header, unreceived, lost, receive_proxy_header,
  Handled, Network, relay, connect_pinned, authorized, requested, answered, handle_client,
}

abbrev IsGuardedAt : (allowed_ports : List ℕ) → (is_tunnel : Bool) → Address → ℕ → Type 0
IsGuardedAt allowed_ports is_tunnel address port =
    (is_routable address ≡ true)
    × (any (λ q. port == q) allowed_ports ≡ true)
    × (is_tunnel ≡ true → port ≡ 443)

-- Nothing is connected to and nothing is sent; or the address passed `_require_globally_routable`,
-- and the port is an allowed one, which is 443 for a tunnel.
abbrev pub IsGuarded : (allowed_ports : List ℕ) → Handled → Type 0
IsGuarded allowed_ports h = elim h.connected [
  | none ↦ h.upstream ≡ []
  | some (address, port) ↦ IsGuardedAt allowed_ports h.is_tunnel address port
]

any-filter :
    (test keep : ℕ → Bool) (l : List ℕ) → any test (filter keep l) ≡ true → any test l ≡ true
any-filter test keep [] h = h
any-filter test keep (x ∷ l) h = ground (arith, any-filter test keep l)

any-https :
    (port : ℕ) (l : List ℕ) → any (λ q. port == q) (filter (λ q. q == 443) l) ≡ true → port ≡ 443
any-https port [] h = absurd (ground (arith, h))
any-https port (x ∷ l) h = ground (arith, any-https port l, h)

allowed_port-lem :
    (is_tunnel : Bool) (port : ℕ) (l : List ℕ)
    → any (λ q. port == q) (if is_tunnel then filter (λ q. q == 443) l else l) ≡ true
    → (any (λ q. port == q) l ≡ true) × (is_tunnel ≡ true → port ≡ 443)
allowed_port-lem true port l h =
    (any-filter (λ q. port == q) (λ q. q == 443) l h, λ _. any-https port l h)
allowed_port-lem false port l h = (h, λ e. absurd (ground (arith, e)))

module _ (p : Platform) (allowed_ports : List ℕ) (n : Network) (request : BrowserProxyRequest) where
  abbrev ports : List ℕ
  ports =
      if text_eq request.method connect then filter (λ q. q == 443) allowed_ports else allowed_ports

  authorized-At :
      (d : Destination) (address : Address)
      → IsPublic p ports request.destination_url d
      → is_routable address ≡ true
      → IsGuardedAt allowed_ports (text_eq request.method connect) address d.port
  authorized-At d address public routable =
      let allowed =
        allowed_port-lem (text_eq request.method connect) d.port allowed_ports
          public.allowed_port in
      (routable, allowed.0, allowed.1)

  relay-IsGuarded :
      (d : Destination) (address : Address)
      → IsGuardedAt allowed_ports (text_eq request.method connect) address d.port
      → IsGuarded allowed_ports (relay n request d address)
  unfolding relay
  relay-IsGuarded d address h =
      if_cases (IsGuarded allowed_ports) (not n.first_send) (λ _. h)
        (λ _.
          if_cases (IsGuarded allowed_ports) ((length request.buffered_body == 0) || n.second_send)
            (λ _. h) (λ _. h))

  pinned-IsGuarded :
      (d : Destination) (addresses : List Address)
      → IsPublic p ports request.destination_url d
      → All (λ a. is_routable a ≡ true) addresses
      → IsGuarded allowed_ports (connect_pinned n request d addresses)
  unfolding connect_pinned
  pinned-IsGuarded d [] public routable = refl
  pinned-IsGuarded d (address ∷ addresses) public routable =
      if_cases (IsGuarded allowed_ports) n.connects
        (λ _. relay-IsGuarded d address (authorized-At d address public routable.0)) (λ _. refl)

  authorized-IsGuarded :
      (o : Option Destination)
      → ((d : Destination) → o ≡ some d → IsPublic p ports request.destination_url d)
      → IsGuarded allowed_ports (authorized n request o)
  unfolding authorized
  authorized-IsGuarded none h = refl
  authorized-IsGuarded (some d) h = pinned-IsGuarded d d.addresses (h d refl) (h d refl).routable

requested-IsGuarded :
    (p : Platform) (allowed_ports : List ℕ) (n : Network) (o : Option BrowserProxyRequest)
    → IsGuarded allowed_ports (requested p allowed_ports n o)
unfolding requested authorize_browser_proxy_request
requested-IsGuarded p allowed_ports n none = refl
requested-IsGuarded p allowed_ports n (some request) =
    authorized-IsGuarded p allowed_ports n request
      (authorize_browser_proxy_request p allowed_ports request)
      (λ d e. validate-IsPublic p (ports p allowed_ports n request) request.destination_url d e)

answered-IsGuarded :
    (urls : Urls) (p : Platform) (allowed_ports : List ℕ) (n : Network) (r : Received)
    → IsGuarded allowed_ports (answered urls p allowed_ports n r)
unfolding answered
answered-IsGuarded urls p allowed_ports n (header block buffered) =
    requested-IsGuarded p allowed_ports n (parse_browser_proxy_request urls block buffered)
answered-IsGuarded urls p allowed_ports n unreceived = refl
answered-IsGuarded urls p allowed_ports n lost = refl

-- Whatever a client sends and the resolver answers: the proxy connects to nothing and sends nothing
-- upstream, or it connects to an address that passed `_require_globally_routable` at an allowed
-- port, and for a CONNECT, whose bytes it does not read, only at port 443.
pub handle-IsGuarded :
    (urls : Urls) (p : Platform) (allowed_ports : List ℕ) (n : Network) (chunks : List Chunk)
    → IsGuarded allowed_ports (handle_client urls p allowed_ports n chunks)
unfolding handle_client
handle-IsGuarded urls p allowed_ports n chunks =
    answered-IsGuarded urls p allowed_ports n (receive_proxy_header [] chunks)
