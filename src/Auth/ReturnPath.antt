-- ===== src/Auth/ReturnPath.antt =====
-- `safe_return_path` of backend/blueash_auth.py: where the browser may go after sign-in.
use mathlib.Core.Option
use opportunity_radar.Prelude.{
  ℕ, zero, suc, Bool, true, false, not, ◌&&◌, ◌||◌, Option, none, some, List, [], ◌∷◌, ◌++◌, ltb,
  ◌==◌, if◌then◌else◌, Text, codes, text_eq, starts_with, strip, length, any, all,
}
use opportunity_radar.Auth.{UrlParts, Urllib}

abbrev pub max_return_path_length : ℕ
max_return_path_length = 2_048

unfoldable pub is_empty : Text → Bool
is_empty [] = true
is_empty (c ∷ t) = false

-- APP_BASE_PATH or "/"
unfoldable pub fallback : Text → Text
fallback [] = codes "/"
fallback (c ∷ base) = c ∷ base

-- path.split("/")
split_slash : Text → Text → List Text
split_slash segment [] = segment ∷ []
split_slash segment (c ∷ t) =
    let closed = segment ∷ split_slash [] t in
    let longer = split_slash (segment ++ c ∷ []) t in if c == b'/' then closed else longer

unfoldable pub is_control : ℕ → Bool
is_control c = ltb c 32 || (c == 127)

is_dots : Text → Bool
is_dots segment = text_eq segment (codes ".") || text_eq segment (codes "..")

is_below : Text → Text → Bool
is_below path prefix = text_eq path prefix || starts_with path (prefix ++ codes "/")

-- The tests on what `urlsplit` returned.
safe_parts : Text → Option UrlParts → Bool
unfolding is_empty split_slash is_dots is_below
safe_parts base none = false
safe_parts base (some p) =
    is_empty p.scheme
    && is_empty p.netloc
    && is_empty p.fragment
    && not (any is_dots (split_slash [] p.path))
    && not (is_below p.path (base ++ codes "/api"))
    && (is_empty base || is_below p.path base)

-- The body of the second loop: none of its returns is taken.
unfoldable pub safe_candidate : Urllib → Text → Text → Bool
unfolding safe_parts is_control
safe_candidate lib base candidate =
    starts_with candidate (codes "/")
    && not (starts_with candidate (codes "//"))
    && not (any (λ c. (c == b'\\') || is_control c) candidate)
    && safe_parts base (lib.urlsplit candidate)

-- The first loop: `rounds` decodings are left; `none` if the text would still change after them.
unfoldable pub decoded_values : Urllib → (rounds : ℕ) → Text → Option (List Text)
decoded_values lib zero value =
    if text_eq (lib.unquote value) value then some (value ∷ []) else none
decoded_values lib (suc rounds) value =
    let more =
      Option.map (λ values. value ∷ values) (decoded_values lib rounds (lib.unquote value)) in
    if text_eq (lib.unquote value) value then some (value ∷ []) else more

unfoldable pub accept : Urllib → Text → Text → Option (List Text) → Text
unfolding safe_candidate fallback
accept lib base value none = fallback base
accept lib base value (some candidates) =
    if all (safe_candidate lib base) candidates then value else fallback base

unfoldable pub checked : Urllib → Text → Text → Text
unfolding accept is_empty
checked lib base value =
    if is_empty value || ltb max_return_path_length (length value)
    then fallback base
    else accept lib base value (decoded_values lib 4 value)

unfoldable pub safe_return_path : Urllib → Text → Text → Text
unfolding checked
safe_return_path lib base return_to = checked lib base (strip return_to)
