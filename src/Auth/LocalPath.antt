-- ===== src/Auth/LocalPath.antt =====
-- Where `safe_return_path` of backend/blueash_auth.py can send a browser.
use opportunity_radar.Prelude.{
  ℕ, zero, suc, ◌≤◌, ◌≡◌, ◌≢◌, refl, sym, ap, ◌∙◌, subst, ◌⊎◌, inl, inr, true, false, ◌||◌, Option,
  none, some, List, [], ◌∷◌, ltb, ◌==◌, if_cases, arith, Text, codes, text_eq, text_eq→eq,
  starts_with, strip, strip_idem, length, any, all, All, Bool-cases, Option-cases,
}
use opportunity_radar.Auth.{Urllib}
use opportunity_radar.Auth.ReturnPath.{
  is_control, safe_candidate, decoded_values, accept, checked, safe_return_path, fallback, is_empty,
}

-- A path on this host, in every browser's reading: it begins with one slash, and holds neither a
-- backslash nor a control character.
abbrev IsPlain : ℕ → Type 0
IsPlain c = (c ≢ b'\\') × (32 ≤ c) × (c ≢ 127)

pub record IsLocal (t : Text) : Type 0 where
  pub rooted : (rest : Text) × (t ≡ b'/' ∷ rest)
  pub one_slash : (rest : Text) → t ≢ b'/' ∷ b'/' ∷ rest
  pub plain : All IsPlain t

no_bad-IsPlain : (t : Text) → any (λ c. (c == b'\\') || is_control c) t ≡ false → All IsPlain t
unfolding is_control
no_bad-IsPlain [] h = tt
no_bad-IsPlain (c ∷ t) h = (ground arith, no_bad-IsPlain t (ground arith))

rooted-lem : (t : Text) → starts_with t (codes "/") ≡ true → (rest : Text) × (t ≡ b'/' ∷ rest)
unfolding starts_with
rooted-lem [] h = cc
rooted-lem (c ∷ t) h = (t, ground arith)

one_slash-lem : (t rest : Text) → starts_with t (codes "//") ≡ false → t ≢ b'/' ∷ b'/' ∷ rest
unfolding starts_with
one_slash-lem t rest h e = cc (subst (λ x. starts_with x (codes "//") ≡ false) e h)

safe_candidate-IsLocal :
    (lib : Urllib) (base t : Text) → safe_candidate lib base t ≡ true → IsLocal t
unfolding safe_candidate
safe_candidate-IsLocal lib base t h = record {
  rooted = rooted-lem t (ground arith);
  one_slash = λ rest. one_slash-lem t rest (ground arith);
  plain = no_bad-IsPlain t (ground arith);
}

-- Decoding `n` times.
unfoldable pub decode : Urllib → ℕ → Text → Text
decode lib zero t = t
decode lib (suc n) t = decode lib n (lib.unquote t)

decode-fixed : (lib : Urllib) (n : ℕ) (t : Text) → lib.unquote t ≡ t → decode lib n t ≡ t
unfolding decode
decode-fixed lib zero t e = refl
decode-fixed lib (suc n) t e = ap (decode lib n) e ∙ decode-fixed lib n t e

next-IsLocal :
    (lib : Urllib) (n : ℕ) (t : Text)
    → IsLocal t
    → ((k : ℕ) → IsLocal (decode lib k (lib.unquote t)))
    → IsLocal (decode lib n t)
unfolding decode
next-IsLocal lib zero t h more = h
next-IsLocal lib (suc n) t h more = more n

-- The candidates cover every number of decodings.
covers :
    (lib : Urllib) (base : Text) (rounds : ℕ) (t : Text) (values : List Text)
    → decoded_values lib rounds t ≡ some values
    → all (safe_candidate lib base) values ≡ true
    → (n : ℕ) → IsLocal (decode lib n t)
unfolding decoded_values decode
covers lib base zero t values e h n = elim (Bool-cases (text_eq (lib.unquote t) t)) [
  | inl fixed ↦
      subst IsLocal (sym (decode-fixed lib n t (text_eq→eq (lib.unquote t) t fixed)))
        (safe_candidate-IsLocal lib base t (ground arith))
  | inr moved ↦ cc (rw moved at e)
]
covers lib base (suc rounds) t values e h n = elim (Bool-cases (text_eq (lib.unquote t) t)) [
  | inl fixed ↦
      subst IsLocal (sym (decode-fixed lib n t (text_eq→eq (lib.unquote t) t fixed)))
        (safe_candidate-IsLocal lib base t (ground arith))
  | inr moved ↦ elim (Option-cases (decoded_values lib rounds (lib.unquote t))) [
    | inl stuck ↦ cc (rw (moved, stuck) at e)
    | inr (more, found) ↦
        next-IsLocal lib n t (safe_candidate-IsLocal lib base t (ground arith))
          (λ k. covers lib base rounds (lib.unquote t) more found (ground arith) k)
  ]
]

accept_cases :
    (lib : Urllib) (base value : Text) (candidates : Option (List Text))
    → decoded_values lib 4 value ≡ candidates
    → (accept lib base value candidates ≡ fallback base)
      ⊎ ((accept lib base value candidates ≡ value) × ((n : ℕ) → IsLocal (decode lib n value)))
unfolding accept
accept_cases lib base value none e = inl refl
accept_cases lib base value (some values) e =
    elim (Bool-cases (all (safe_candidate lib base) values)) [
      | inl h ↦ inr (rw (h, accept) refl, covers lib base 4 value values e h)
      | inr h ↦ inl (rw (h, accept) refl)
    ]

checked_cases :
    (lib : Urllib) (base value : Text)
    → (checked lib base value ≡ fallback base)
      ⊎ ((checked lib base value ≡ value) × ((n : ℕ) → IsLocal (decode lib n value)))
unfolding checked
checked_cases lib base value =
    if_cases (λ r. (r ≡ fallback base) ⊎ ((r ≡ value) × ((n : ℕ) → IsLocal (decode lib n value))))
      (is_empty value || ltb 2_048 (length value)) (λ _. inl refl)
      (λ _. accept_cases lib base value (decoded_values lib 4 value) refl)

checked-fallback : (lib : Urllib) (base : Text) → checked lib base (fallback base) ≡ fallback base
checked-fallback lib base = elim (checked_cases lib base (fallback base)) [
  | inl e ↦ e
  | inr e ↦ e.0
]

-- The result is the configured base path (or `/`), or it is the requested path without the spaces
-- around it; and then, however many times it is percent-decoded, it stays a path on this host:
-- one leading slash, no backslash, no control character.
pub safe_return_path-IsLocal :
    (lib : Urllib) (base return_to : Text)
    → (safe_return_path lib base return_to ≡ fallback base)
      ⊎ ((safe_return_path lib base return_to ≡ strip return_to)
          × ((n : ℕ) → IsLocal (decode lib n (safe_return_path lib base return_to))))
unfolding safe_return_path
safe_return_path-IsLocal lib base return_to = elim (checked_cases lib base (strip return_to)) [
  | inl e ↦ inl e
  | inr (e, h) ↦ inr (e, λ n. subst (λ r. IsLocal (decode lib n r)) (sym e) (h n))
]

-- A result is its own result, if the base path has no space around it. So the path that
-- `create_handoff_attempt` stores passes the test of `consume_handoff_cookie`.
pub safe_return_path_idem :
    (lib : Urllib) (base return_to : Text)
    → strip (fallback base) ≡ fallback base
    → safe_return_path lib base (safe_return_path lib base return_to)
      ≡ safe_return_path lib base return_to
unfolding safe_return_path
safe_return_path_idem lib base return_to h = elim (checked_cases lib base (strip return_to)) [
  | inl e ↦
      ap (safe_return_path lib base) e
      ∙ (ap (checked lib base) h ∙ (checked-fallback lib base ∙ sym e))
  | inr (e, _) ↦ ap (safe_return_path lib base) e ∙ ap (checked lib base) (strip_idem return_to)
]
