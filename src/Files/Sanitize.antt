-- ===== src/Files/Sanitize.antt =====
-- `sanitize_spreadsheet_value` of backend/file_security.py. `urlsplit` is an argument: the scheme
-- that it finds, or `none` for its `ValueError`. It gives the scheme in lower case.
use opportunity_radar.Prelude.{
  ℕ, ◌≡◌, refl, ap, ◌∙◌, Bool, true, false, not, ◌&&◌, ◌||◌, Option, none, some, [], ◌∷◌, leb, ◌==◌,
  if◌then◌else◌, if_cases, arith, any, filter, Text, codes, text_eq, is_space, lstrip,
}

-- A cell's value: a `str`, or another object.
pub data Value {ℓ} (A : Type ℓ) : Type ℓ where
  text : Text → Value A
  object : A → Value A

-- [\x00-\x08\x0b\x0c\x0e-\x1f]
unfoldable pub is_stripped : ℕ → Bool
is_stripped c = leb c 8 || (c == 11) || (c == 12) || (leb 14 c && leb c 31)

unfoldable pub is_formula : Text → Bool
is_formula [] = false
is_formula (c ∷ t) = (c == b'=') || (c == b'+') || (c == b'-') || (c == b'@')

-- A scheme that is neither empty nor one of the harmless ones.
unfoldable pub is_unsafe_scheme : Option Text → Bool
is_unsafe_scheme none = true
is_unsafe_scheme (some []) = false
is_unsafe_scheme (some (c ∷ s)) = not (
    text_eq (c ∷ s) (codes "http")
    || text_eq (c ∷ s) (codes "https")
    || text_eq (c ∷ s) (codes "mailto"))

unfoldable pub cleaned : Text → Text
unfolding is_stripped
cleaned value = filter (λ c. not (is_stripped c)) value

-- The text without its control characters, with a quote before it where it would be computed or
-- followed.
unfoldable pub quoted : (urlsplit : Text → Option Text) → Text → Text
unfolding is_formula is_unsafe_scheme
quoted urlsplit value =
    if is_formula (lstrip value)
    then b'\'' ∷ value
    else if is_unsafe_scheme (urlsplit (lstrip value))
    then b'\'' ∷ value
    else value

unfoldable pub sanitize_spreadsheet_value {ℓ} :
    {A : Type ℓ} → (urlsplit : Text → Option Text) → Value A → Value A
unfolding cleaned quoted
sanitize_spreadsheet_value urlsplit (text value) = text (quoted urlsplit (cleaned value))
sanitize_spreadsheet_value urlsplit (object a) = object a

-- A text that a spreadsheet program shows as it is: it begins neither a formula nor, after spaces,
-- an address with an unsafe scheme, and it has no character of `_CONTROL_CHARACTERS`.
pub record IsInert (urlsplit : Text → Option Text) (value : Text) : Type 0 where
  pub no_formula : is_formula (lstrip value) ≡ false
  pub no_scheme : is_unsafe_scheme (urlsplit (lstrip value)) ≡ false
  pub no_control : any is_stripped value ≡ false

abbrev pub IsInertValue {ℓ} : {A : Type ℓ} → (urlsplit : Text → Option Text) → Value A → Type 0
IsInertValue urlsplit (text value) = IsInert urlsplit value
IsInertValue urlsplit (object a) = Unit

cleaned-no_control : (value : Text) → any is_stripped (cleaned value) ≡ false
unfolding cleaned
cleaned-no_control [] = refl
cleaned-no_control (c ∷ value) = ground (arith, cleaned-no_control value)

no_control-cleaned : (value : Text) → any is_stripped value ≡ false → cleaned value ≡ value
unfolding cleaned
no_control-cleaned [] h = refl
no_control-cleaned (c ∷ value) h = ground (arith, no_control-cleaned value)

module _ (urlsplit : Text → Option Text)
    (quote_has_no_scheme : (value : Text) → urlsplit (b'\'' ∷ value) ≡ some []) where
  quote-IsInert : (value : Text) → any is_stripped value ≡ false → IsInert urlsplit (b'\'' ∷ value)
  unfolding is_formula is_stripped is_unsafe_scheme lstrip is_space
  quote-IsInert value h = record {
    no_formula = refl;
    no_scheme = rw (quote_has_no_scheme value) refl;
    no_control = h;
  }

  quoted-IsInert :
      (value : Text) → any is_stripped value ≡ false → IsInert urlsplit (quoted urlsplit value)
  unfolding quoted
  quoted-IsInert value h =
      if_cases (IsInert urlsplit) (is_formula (lstrip value)) (λ _. quote-IsInert value h)
        (λ plain.
          if_cases (IsInert urlsplit) (is_unsafe_scheme (urlsplit (lstrip value)))
            (λ _. quote-IsInert value h)
            (λ safe. record { no_formula = plain; no_scheme = safe; no_control = h }))

  IsInert-quoted : (value : Text) → IsInert urlsplit value → quoted urlsplit value ≡ value
  unfolding quoted
  IsInert-quoted value h = rw (h.no_formula, h.no_scheme) refl

  -- If `urlsplit` finds no scheme in a text that begins with a quote: a sanitised text is inert,
  -- that is, it has none of the control characters of `_CONTROL_CHARACTERS`, which leaves tab, line
  -- feed, carriage return and DEL, and, after its spaces, neither begins a formula nor has another
  -- scheme than http, https and mailto; and sanitising again changes nothing.
  pub sanitize-IsInertValue {ℓ} :
      {A : Type ℓ} (v : Value A)
      → IsInertValue urlsplit (sanitize_spreadsheet_value urlsplit v)
        × (sanitize_spreadsheet_value urlsplit (sanitize_spreadsheet_value urlsplit v)
            ≡ sanitize_spreadsheet_value urlsplit v)
  unfolding sanitize_spreadsheet_value
  sanitize-IsInertValue (text value) =
      let inert = quoted-IsInert (cleaned value) (cleaned-no_control value) in
      (
        inert,
        ap text (
            ap (quoted urlsplit)
              (no_control-cleaned (quoted urlsplit (cleaned value)) inert.no_control)
            ∙ IsInert-quoted (quoted urlsplit (cleaned value)) inert),
      )
  sanitize-IsInertValue (object a) = (tt, refl)
