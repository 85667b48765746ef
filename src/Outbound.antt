-- ===== src/Outbound.antt =====
-- backend/outbound_security.py: which addresses the program connects to, and how it follows
-- redirects. The answers of urllib, ipaddress, idna, the resolver and the servers are arguments.
pub mod Validate
pub mod Ordered
pub mod Routable
pub mod Transport
pub mod Guard
pub mod Redirects
pub mod Safety
pub mod Limits
pub mod Bodies
mod Tests
use opportunity_radar.Prelude.{
  ℕ, ◌≡◌, refl, ap, Bool, true, false, ◌&&◌, ◌||◌, Option, none, some, List, [], ◌∷◌, ltb, leb,
  ◌==◌, ◌+◌, if◌then◌else◌, arith, Text, codes, text_eq, text_eq→eq, any, map,
}

-- Lower case, as far as ASCII.
unfoldable pub lower : Text → Text
lower t = map (λ c. if leb b'A' c && leb c b'Z' then c + 32 else c) t

-- What `urlsplit` makes of an URL, as far as `_origin` reads it; a port that raises is `none`, and
-- one that is absent is 0, since `or` takes both 0 and `None` for the default.
pub record UrlOrigin : Type 0 where
  pub scheme : Text
  pub hostname : Option Text
  pub port : Option ℕ

-- `_origin`
abbrev pub Origin : Type 0
Origin = Text × Option Text × Option ℕ

port_or : Text → Option ℕ → Option ℕ
port_or scheme none = none
port_or scheme (some p) =
    some (if p == 0 then (if text_eq scheme (codes "https") then 443 else 80) else p)

unfoldable pub origin : UrlOrigin → Origin
unfolding lower port_or
origin u = (lower u.scheme, u.hostname, port_or (lower u.scheme) u.port)

text_option_eq : Option Text → Option Text → Bool
text_option_eq none none = true
text_option_eq none (some t) = false
text_option_eq (some s) none = false
text_option_eq (some s) (some t) = text_eq s t

number_option_eq : Option ℕ → Option ℕ → Bool
number_option_eq none none = true
number_option_eq none (some t) = false
number_option_eq (some s) none = false
number_option_eq (some s) (some t) = s == t

-- Equality of the triples.
unfoldable pub origin_eq : Origin → Origin → Bool
unfolding text_option_eq number_option_eq
origin_eq (s, h, p) (t, g, q) = text_eq s t && text_option_eq h g && number_option_eq p q

text_option_eq→eq : (a b : Option Text) → text_option_eq a b ≡ true → a ≡ b
unfolding text_option_eq
text_option_eq→eq none none h = refl
text_option_eq→eq none (some t) h = cc h
text_option_eq→eq (some s) none h = cc h
text_option_eq→eq (some s) (some t) h = ap some (text_eq→eq s t h)

number_option_eq→eq : (a b : Option ℕ) → number_option_eq a b ≡ true → a ≡ b
unfolding number_option_eq
number_option_eq→eq none none h = refl
number_option_eq→eq none (some t) h = cc h
number_option_eq→eq (some s) none h = cc h
number_option_eq→eq (some s) (some t) h = ground arith

pub origin_eq→eq : (a b : Origin) → origin_eq a b ≡ true → a ≡ b
unfolding origin_eq
origin_eq→eq (s, h, p) (t, g, q) e =
    let e1 : text_eq s t ≡ true = ground arith in
    let e2 : text_option_eq h g ≡ true = ground arith in
    let e3 : number_option_eq p q ≡ true = ground arith in
    rw (text_eq→eq s t e1, text_option_eq→eq h g e2, number_option_eq→eq p q e3) refl
