-- ===== src/Email/Recipients.antt =====
-- `normalize_recipients` and `valid_email` of backend/email_service.py. `parseaddr` is an argument.
use opportunity_radar.Prelude.{
  ℕ, ◌+◌, ◌≤◌, ◌≡◌, refl, Bool, true, false, not, ◌&&◌, ◌||◌, List, [], ◌∷◌, ◌++◌, map, ltb, leb,
  ◌==◌, if◌then◌else◌, if_cases, arith, any, count_if, length, All, All-append, Text, text_eq,
  strip, starts_with, contains, codes, is_space,
}

-- An entry of the request's list, which need not be a `str`.
pub data Candidate : Type 0 where
  text : Text → Candidate
  no_text : Candidate

pub data RecipientsRequest : Type 0 where
  missing not_a_list : RecipientsRequest
  single : Text → RecipientsRequest
  several : List Candidate → RecipientsRequest

-- The `EmailConfigurationError`s.
pub data Recipients : Type 0 where
  recipients : List Text → Recipients
  bad_request blank invalid duplicate too_many : Recipients

unfoldable pub lower_char : ℕ → ℕ
lower_char c = if leb b'A' c && leb c b'Z' then c + 32 else c

-- candidate.rsplit("@", 1), where there is one
unfoldable pub local_part : Text → Text
local_part [] = []
local_part (c ∷ t) = let rest = local_part t in if c == b'@' then [] else c ∷ rest

unfoldable pub domain_part : Text → Text
domain_part [] = []
domain_part (c ∷ t) = let rest = domain_part t in if c == b'@' then t else rest

unfoldable pub last_is_dot : Text → Bool
last_is_dot [] = false
last_is_dot (c ∷ []) = c == b'.'
last_is_dot (c ∷ d ∷ t) = last_is_dot (d ∷ t)

abbrev pub is_blank_text : Text → Bool
is_blank_text [] = true
is_blank_text (c ∷ t) = false

unfoldable pub is_address : (local domain : Text) → Bool
unfolding last_is_dot
is_address local domain =
    not (is_blank_text local)
    && contains domain (codes ".")
    && not (starts_with domain (codes "."))
    && not (last_is_dot domain)

unfoldable pub valid_email : (parseaddr : Text → Text) → Text → Bool
unfolding local_part domain_part is_address
valid_email parseaddr value =
    let candidate = strip value in
    if not (text_eq (parseaddr candidate) candidate)
      || not (count_if (λ c. c == b'@') candidate == 1)
      || any is_space candidate
    then false
    else is_address (local_part candidate) (domain_part candidate)

-- `recipient in seen`, where `seen` has what `normalized` has
unfoldable pub is_seen : Text → List Text → Bool
is_seen recipient normalized = any (text_eq recipient) normalized

unfoldable pub normalized_text : Text → Text
unfolding lower_char
normalized_text value = map lower_char (strip value)

module _ (parseaddr : Text → Text) where
  -- The loop, and the test behind it.
  unfoldable pub normalize : (normalized : List Text) → List Candidate → Recipients
  unfolding valid_email is_seen normalized_text
  normalize normalized [] = if ltb 50 (length normalized) then too_many else recipients normalized
  normalize normalized (no_text ∷ candidates) = blank
  normalize normalized (text value ∷ candidates) =
      let recipient = normalized_text value in
      let rest = normalize (normalized ++ recipient ∷ []) candidates in
      if is_blank_text (strip value)
      then blank
      else if not (valid_email parseaddr recipient)
      then invalid
      else if is_seen recipient normalized
      then duplicate
      else rest

  -- `normalize_recipients`
  unfoldable pub normalize_recipients : RecipientsRequest → Recipients
  unfolding normalize
  normalize_recipients missing = recipients []
  normalize_recipients not_a_list = bad_request
  normalize_recipients (single value) = normalize [] (text value ∷ [])
  normalize_recipients (several candidates) = normalize [] candidates

-- No entry is before an equal one.
abbrev pub IsDistinct : List Text → Type 0
IsDistinct [] = Unit
IsDistinct (r ∷ rs) = (any (text_eq r) rs ≡ false) × IsDistinct rs

-- What a list of recipients is that may be stored.
abbrev pub IsStorable : (parseaddr : Text → Text) → Recipients → Type 0
IsStorable parseaddr (recipients rs) =
    (length rs ≤ 50) × All (λ r. valid_email parseaddr r ≡ true) rs × IsDistinct rs
IsStorable parseaddr _ = Unit

any-append {ℓ} :
    {A : Type ℓ} (p : A → Bool) (xs ys : List A) → any p (xs ++ ys) ≡ (any p xs || any p ys)
any-append p [] ys = refl
any-append p (x ∷ xs) ys = ground (arith, any-append p xs ys)

text_eq_comm : (s t : Text) → text_eq s t ≡ text_eq t s
unfolding text_eq
text_eq_comm [] [] = refl
text_eq_comm [] (b ∷ t) = refl
text_eq_comm (a ∷ s) [] = refl
text_eq_comm (a ∷ s) (b ∷ t) = ground (arith, text_eq_comm s t)

snoc-IsDistinct :
    (rs : List Text) (r : Text) → IsDistinct rs → is_seen r rs ≡ false → IsDistinct (rs ++ r ∷ [])
unfolding is_seen
snoc-IsDistinct [] r h fresh = (refl, tt)
snoc-IsDistinct (x ∷ rs) r h fresh = (
  ground (arith, any-append (text_eq x) rs (r ∷ []), text_eq_comm r x, h.0, fresh),
  snoc-IsDistinct rs r h.1 (ground (arith, fresh)),
)

normalize-IsStorable :
    (parseaddr : Text → Text) (rs : List Text) (candidates : List Candidate)
    → All (λ r. valid_email parseaddr r ≡ true) rs
    → IsDistinct rs
    → IsStorable parseaddr (normalize parseaddr rs candidates)
unfolding normalize
normalize-IsStorable parseaddr rs [] valid distinct =
    if_cases (IsStorable parseaddr) (ltb 50 (length rs)) (λ _. tt)
      (λ few. (ground (arith, few), valid, distinct))
normalize-IsStorable parseaddr rs (no_text ∷ candidates) valid distinct = tt
normalize-IsStorable parseaddr rs (text value ∷ candidates) valid distinct =
    let r = normalized_text value in
    if_cases (IsStorable parseaddr) (is_blank_text (strip value)) (λ _. tt)
      (λ _.
        if_cases (IsStorable parseaddr) (not (valid_email parseaddr r)) (λ _. tt)
          (λ ok.
            if_cases (IsStorable parseaddr) (is_seen r rs) (λ _. tt)
              (λ fresh.
                normalize-IsStorable parseaddr (rs ++ r ∷ []) candidates
                  (All-append (λ r. valid_email parseaddr r ≡ true) rs (r ∷ []) valid
                    (ground (arith, ok), tt))
                  (snoc-IsDistinct rs r distinct fresh))))

-- Whatever the request holds: what is accepted as a list of recipients has at most 50 entries, all of
-- which are valid addresses, and no two of which are the same.
pub recipients-IsStorable :
    (parseaddr : Text → Text) (q : RecipientsRequest)
    → IsStorable parseaddr (normalize_recipients parseaddr q)
unfolding normalize_recipients
recipients-IsStorable parseaddr missing = (omega arith, tt, tt)
recipients-IsStorable parseaddr not_a_list = tt
recipients-IsStorable parseaddr (single value) =
    normalize-IsStorable parseaddr [] (text value ∷ []) tt tt
recipients-IsStorable parseaddr (several candidates) =
    normalize-IsStorable parseaddr [] candidates tt tt
