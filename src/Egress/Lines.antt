-- ===== src/Egress/Lines.antt =====
-- The lines that the proxy of backend/browser_egress_proxy.py reads and writes: how they are split
-- again, and the headers.
use mathlib.Core.List.{append_assoc}
use opportunity_radar.Prelude.{
  ℕ, ◌≡◌, refl, Bool, true, false, not, ◌&&◌, ◌||◌, some, List, [], ◌∷◌, ◌++◌, filter, all, length,
  ◌==◌, if_cases, arith, All, All-append, Text, codes, ap, ◌∙◌,
}
use opportunity_radar.Outbound.Routable.{Holds, Holds-bind, Holds-any, Holds-refuse}
use opportunity_radar.Egress.{
  crlf, Header, is_connection, split_crlf, is_token_char, is_token, is_unsafe_value, read_header,
  read_headers, forwarded_headers, lstrip_blanks, rstrip_blanks, split_colon, is_folded,
}
use opportunity_radar.Egress.Proxy.{header_line, join_crlf}

-- A carriage return or a line feed.
abbrev pub is_break : ℕ → Bool
is_break c = (c == 13) || (c == 10)

-- No byte of a text is one of them.
abbrev pub IsLine : Text → Type 0
IsLine t = All (λ c. is_break c ≡ false) t

unfoldable pub is_line : Text → Bool
is_line t = all (λ c. not (is_break c)) t

pub is_line-lem : (t : Text) → is_line t ≡ true → IsLine t
unfolding is_line
is_line-lem [] h = tt
is_line-lem (c ∷ t) h = (ground (arith, h), is_line-lem t (ground (arith, h)))

no_return : (c : ℕ) → is_break c ≡ false → (c == 13) ≡ false
no_return c h = ground (arith, h)

split-end :
    (t : Text) → IsLine t → (rest : Text) → split_crlf (t ++ (crlf ++ rest)) ≡ t ∷ split_crlf rest
unfolding split_crlf
split-end [] h rest = refl
split-end (c ∷ []) h rest = rw (no_return c h.0) refl
split-end (c ∷ d ∷ t) h rest = rw (no_return c h.0, split-end (d ∷ t) h.1 rest) refl

pub join-split :
    (lines : List Text) (line : Text)
    → All IsLine (line ∷ lines)
    → split_crlf (join_crlf (line ∷ lines) ++ (crlf ++ crlf)) ≡ (line ∷ lines) ++ [] ∷ [] ∷ []
unfolding join_crlf split_crlf
join-split [] line h = split-end line h.0 crlf
join-split (next ∷ lines) line h =
    let more = join_crlf (next ∷ lines) in
    ap split_crlf (append_assoc line (crlf ++ more) (crlf ++ crlf))
    ∙ split-end line h.0 (more ++ (crlf ++ crlf))
    ∙ ap (λ rest. line ∷ rest) (join-split lines next h.1)

-- The header's line.
pub line-parts :
    (name value : Text) → IsLine name → IsLine value → IsLine (header_line (name, value))
unfolding header_line
line-parts name value n v =
    All-append (λ c. is_break c ≡ false) (name ++ codes ": ") value
      (All-append (λ c. is_break c ≡ false) name (codes ": ") n (refl, (refl, tt))) v

lstrip-IsLine : (t : Text) → IsLine t → IsLine (lstrip_blanks t)
unfolding lstrip_blanks
lstrip-IsLine [] h = h
lstrip-IsLine (c ∷ t) h =
    if_cases IsLine ((c == 32) || (c == 9)) (λ _. lstrip-IsLine t h.1) (λ _. h)

rstrip-IsLine : (t : Text) → IsLine t → IsLine (rstrip_blanks t)
unfolding rstrip_blanks
rstrip-IsLine [] h = h
rstrip-IsLine (c ∷ t) h =
    if_cases IsLine (((c == 32) || (c == 9)) && (length (rstrip_blanks t) == 0)) (λ _. tt)
      (λ _. (h.0, rstrip-IsLine t h.1))

token-IsLine : (t : Text) → all is_token_char t ≡ true → IsLine t
unfolding is_token_char
token-IsLine [] h = tt
token-IsLine (c ∷ t) h = (ground (arith, h), token-IsLine t (ground (arith, h)))

value-IsLine : (t : Text) → is_unsafe_value t ≡ false → IsLine t
unfolding is_unsafe_value
value-IsLine [] h = tt
value-IsLine (c ∷ t) h = (ground (arith, h), value-IsLine t (ground (arith, h)))

abbrev pub HasLine : Header → Type 0
HasLine h = IsLine (header_line h)

read-HasLine : (line : Text) → Holds HasLine (read_header line)
unfolding read_header is_token
read-HasLine line = Holds-refuse HasLine (is_folded line) _ (λ _.
    Holds-bind (λ h. Unit) HasLine (split_colon line) _ (Holds-any (split_colon line))
      (λ h _.
        Holds-refuse HasLine (not (is_token h.0) || is_unsafe_value h.1)
          (some (h.0, rstrip_blanks (lstrip_blanks h.1)))
          (λ safe.
            line-parts h.0 (rstrip_blanks (lstrip_blanks h.1))
              (token-IsLine h.0 (ground (arith, safe)))
              (rstrip-IsLine (lstrip_blanks h.1)
                (lstrip-IsLine h.1 (value-IsLine h.1 (ground (arith, safe))))))))

headers-HasLine : (lines : List Text) → Holds (All HasLine) (read_headers lines)
unfolding read_headers
headers-HasLine [] = tt
headers-HasLine (line ∷ lines) =
    Holds-bind HasLine (All HasLine) (read_header line) _ (read-HasLine line) (λ h hl.
      Holds-bind (All HasLine) (All HasLine) (read_headers lines) _ (headers-HasLine lines)
        (λ rest hr. (hl, hr)))

abbrev pub IsKept : Header → Type 0
IsKept h = HasLine h × (is_connection h.0 ≡ false)

filter-IsKept :
    (headers : List Header)
    → All HasLine headers
    → All IsKept (filter (λ (h : Header). not (is_connection h.0)) headers)
filter-IsKept [] h = tt
filter-IsKept (x ∷ headers) h =
    if_cases (All IsKept) (not (is_connection x.0))
      (λ keep. ((h.0, ground (arith, keep)), filter-IsKept headers h.1))
      (λ _. filter-IsKept headers h.1)

pub forwarded-IsKept : (lines : List Text) → Holds (All IsKept) (forwarded_headers lines)
unfolding forwarded_headers
forwarded-IsKept lines =
    Holds-bind (All HasLine) (All IsKept) (read_headers lines) _ (headers-HasLine lines)
      (λ headers h.
        Holds-refuse (All IsKept) _
          (some (filter (λ (h : Header). not (is_connection h.0)) headers))
          (λ _. filter-IsKept headers h))
