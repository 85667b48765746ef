-- ===== src/Egress/Parsed.antt =====
-- What the parser of backend/browser_egress_proxy.py lets through.
use opportunity_radar.Prelude.{
  ◌≡◌, refl, sym, true, false, not, ◌||◌, Option, none, some, List, [], ◌∷◌, ◌++◌, any, all, length,
  ◌==◌, ltb, if◌then◌else◌, if_cases, arith, All, Text, codes, text_eq, text_eq→eq, inl, inr,
  Bool-cases, subst,
}
use opportunity_radar.Outbound.{lower}
use opportunity_radar.Outbound.Routable.{Holds, Holds-bind, Holds-any, Holds-refuse}
use opportunity_radar.Egress.{
  is_connection, split_crlf, Urls, BrowserProxyRequest, parse_browser_proxy_request,
  forwarded_headers, request_line, destination_of, parse_lines, is_allowed_method, allowed_methods,
  Target, connect, has_separator, header_text, max_header_bytes, is_supported_version,
  is_unsafe_target, split_space, is_ascii, upper, line_parts,
}
use opportunity_radar.Egress.Proxy.{header_line}
use opportunity_radar.Egress.Lines.{IsLine, is_line, is_line-lem, IsKept, forwarded-IsKept}

one_of-IsLine :
    (t : Text) (options : List Text)
    → all is_line options ≡ true
    → any (text_eq t) options ≡ true
    → IsLine t
one_of-IsLine t [] lines h = absurd (ground (arith, h))
one_of-IsLine t (o ∷ options) lines h = elim (Bool-cases (text_eq t o)) [
  | inl e ↦ subst IsLine (sym (text_eq→eq t o e)) (is_line-lem o (ground (arith, lines)))
  | inr e ↦ one_of-IsLine t options (ground (arith, lines)) (ground (arith, h, e))
]

pub method-IsLine : (method : Text) → is_allowed_method method ≡ true → IsLine method
unfolding is_allowed_method is_line
method-IsLine method h = one_of-IsLine method allowed_methods refl h

pub version-IsLine : (version : Text) → is_supported_version version ≡ true → IsLine version
unfolding is_supported_version is_line
version-IsLine version h =
    one_of-IsLine version (codes "HTTP/1.0" ∷ codes "HTTP/1.1" ∷ []) refl (ground (arith, h))

target-IsLine : (target : Text) → is_unsafe_target target ≡ false → IsLine target
unfolding is_unsafe_target
target-IsLine [] h = tt
target-IsLine (c ∷ t) h = (ground (arith, h), target-IsLine t (ground (arith, h)))

-- A request that the parser may return.
pub record IsParsed (request : BrowserProxyRequest) : Type 0 where
  pub method : is_allowed_method request.method ≡ true
  pub version : is_supported_version request.version ≡ true
  pub target : IsLine request.upstream_target
  pub headers : All (λ h. IsLine (header_line h) × (is_connection h.0 ≡ false)) request.headers

abbrev IsRequestLine : Text × Text × Text → Type 0
IsRequestLine r = (is_allowed_method r.0 ≡ true) × (IsLine r.1) × (is_supported_version r.2 ≡ true)

capital_method :
    (method : Text)
    → not (is_allowed_method (upper method)) || not (text_eq method (upper method)) ≡ false
    → is_allowed_method method ≡ true
capital_method method h =
    subst (λ m. is_allowed_method m ≡ true)
      (sym (text_eq→eq method (upper method) (ground (arith, h)))) (ground (arith, h))

parts-IsRequestLine :
    (line : Text) (parts : List Text) → Holds IsRequestLine (line_parts line parts)
unfolding line_parts
parts-IsRequestLine line [] = tt
parts-IsRequestLine line (m ∷ []) = tt
parts-IsRequestLine line (m ∷ t ∷ []) = tt
parts-IsRequestLine line (m ∷ t ∷ v ∷ w ∷ ws) = tt
parts-IsRequestLine line (m ∷ t ∷ v ∷ []) = Holds-refuse IsRequestLine (not (is_ascii line)) _ (λ _.
    Holds-refuse IsRequestLine (not (is_allowed_method (upper m)) || not (text_eq m (upper m))) _
      (λ method. Holds-refuse IsRequestLine (not (is_supported_version v)) _ (λ version.
        Holds-refuse IsRequestLine (is_unsafe_target t) (some (m, t, v))
          (λ target. (capital_method m method, target-IsLine t target, ground (arith, version))))))

Holds-equal {ℓ} :
    {A : Type ℓ} (P : A → Type 0) (o : Option A) → ((a : A) → o ≡ some a → P a) → Holds P o
Holds-equal P none h = tt
Holds-equal P (some a) h = h a refl

request-IsRequestLine : (line : Text) → Holds IsRequestLine (request_line line)
unfolding request_line
request-IsRequestLine line = parts-IsRequestLine line (split_space line)

-- What `urlsplit` and `urlunsplit` are relied on for: they bring no carriage return and no line feed in.
pub record IsClean (urls : Urls) : Type 0 where
  pub split :
      (target : Text) (u : Target)
      → urls.split_target target ≡ some u
      → IsLine target
      → IsLine u.path × IsLine u.query
  pub unsplit : (path query : Text) → IsLine path → IsLine query → IsLine (urls.unsplit path query)

abbrev HasTarget : Text × Text → Type 0
HasTarget d = IsLine d.1

abbrev HasPath : Target → Type 0
HasPath u = IsLine u.path × IsLine u.query

module _ (urls : Urls) (clean : IsClean urls) where
  destination-IsLine :
      (method target : Text) → IsLine target → Holds HasTarget (destination_of urls method target)
  unfolding destination_of
  destination-IsLine method target h =
      if_cases (Holds HasTarget) (text_eq method connect)
        (λ _.
          Holds-refuse HasTarget (has_separator target || not (urls.is_authority target))
            (some (codes "https://" ++ target ++ codes "/", target)) (λ _. h))
        (λ _.
          Holds-bind HasPath HasTarget (urls.split_target target) _
            (Holds-equal HasPath (urls.split_target target) (λ u e. clean.split target u e h))
            (λ u hu.
              Holds-refuse HasTarget
                (not (text_eq (lower u.scheme) (codes "http"))
                  || (length u.netloc == 0)
                  || not (length u.fragment == 0))
                (some
                  (target, urls.unsplit (if length u.path == 0 then codes "/" else u.path) u.query))
                (λ _.
                  clean.unsplit (if length u.path == 0 then codes "/" else u.path) u.query
                    (if_cases IsLine (length u.path == 0) (λ _. (refl, tt)) (λ _. hu.0)) hu.1)))

  lines-IsParsed : (body : Text) (lines : List Text) → Holds IsParsed (parse_lines urls body lines)
  unfolding parse_lines
  lines-IsParsed body [] = tt
  lines-IsParsed body (line ∷ lines) = Holds-refuse IsParsed (length line == 0) _ (λ _.
      Holds-bind IsRequestLine IsParsed (request_line line) _ (request-IsRequestLine line) (λ r hr.
        Holds-bind (All IsKept) IsParsed (forwarded_headers lines) _ (forwarded-IsKept lines)
          (λ headers hh.
            Holds-bind HasTarget IsParsed (destination_of urls r.0 r.1) _
              (destination-IsLine r.0 r.1 hr.1)
              (λ d hd. record { method = hr.0; version = hr.2; target = hd; headers = hh }))))

  pub parse-IsParsed :
      (block body : Text) → Holds IsParsed (parse_browser_proxy_request urls block body)
  unfolding parse_browser_proxy_request
  parse-IsParsed block body = Holds-refuse IsParsed (ltb max_header_bytes (length block)) _ (λ _.
      Holds-bind (λ t. Unit) IsParsed (header_text block) _ (Holds-any (header_text block))
        (λ text _. lines-IsParsed body (split_crlf text)))
