-- ===== src/Gate/OperationType.antt =====
-- `_safe_operation_type` of backend/operation_gate.py, over code points. `str.isalnum`, `str.lower`
-- and `str.split` are read on ASCII: every operation type in the program is an ASCII literal.
use opportunity_radar.Prelude.{
  ℕ, ◌+◌, ◌≤◌, ◌≡◌, ◌⊎◌, refl, Bool, false, ◌&&◌, ◌||◌, [], ◌∷◌, map, arith, leb, Text, codes,
  split, join, split-All, join-All, ◌==◌, if◌then◌else◌, length, take, filter, All, All-take,
  length-take-le,
}

is_upper : ℕ → Bool
is_upper c = leb b'A' c && leb c b'Z'

to_lower : ℕ → ℕ
unfolding is_upper
to_lower c = if is_upper c then c + 32 else c

is_alnum : ℕ → Bool
unfolding is_upper
is_alnum c = is_upper c || (leb b'a' c && leb c b'z') || (leb b'0' c && leb c b'9')

-- `character.isalnum() or character in {"-", "_"}`
keeps : ℕ → Bool
unfolding is_alnum
keeps c = is_alnum c || (c == b'-') || (c == b'_')

or_operation : Text → Text
or_operation [] = codes "operation"
or_operation (c ∷ cs) = c ∷ cs

unfoldable pub safe_operation_type : Text → Text
unfolding split join keeps to_lower or_operation
safe_operation_type value =
    take 80 (or_operation (filter keeps (join b'-' (split (map to_lower (or_operation value))))))

-- A lower-case ASCII letter, a digit, a dash or an underscore.
abbrev pub IsSafeChar : ℕ → Type 0
IsSafeChar c = ((b'a' ≤ c) × (c ≤ b'z')) ⊎ ((b'0' ≤ c) × (c ≤ b'9')) ⊎ (c ≡ b'-') ⊎ (c ≡ b'_')

abbrev NotUpper : ℕ → Type 0
NotUpper c = is_upper c ≡ false

to_lower-NotUpper : (t : Text) → All NotUpper (map to_lower t)
unfolding to_lower
to_lower-NotUpper [] = tt
to_lower-NotUpper (c ∷ t) = (ground arith, to_lower-NotUpper t)

filter-keeps : (t : Text) → All NotUpper t → All IsSafeChar (filter keeps t)
unfolding keeps
filter-keeps [] h = tt
filter-keeps (c ∷ t) h = ground (arith, filter-keeps t h.1)

or_operation-safe : (t : Text) → All IsSafeChar t → All IsSafeChar (or_operation t)
unfolding or_operation
or_operation-safe [] h = omega arith
or_operation-safe (c ∷ t) h = h

take-or_operation-nonempty : (t : Text) → 1 ≤ length (take 80 (or_operation t))
unfolding or_operation
take-or_operation-nonempty [] = omega arith
take-or_operation-nonempty (c ∷ t) = omega arith

cleaned-safe : (t : Text) → All IsSafeChar (filter keeps (join b'-' (split (map to_lower t))))
cleaned-safe t = filter-keeps (join b'-' (split (map to_lower t))) (
    join-All NotUpper b'-' (split (map to_lower t)) (unfold is_upper in refl)
      (split-All NotUpper (map to_lower t) (to_lower-NotUpper t)))

-- Whatever the requested text, the operation type has from 1 to 80 characters, and each of them is
-- a lower-case ASCII letter, a digit, a dash or an underscore.
pub safe_operation_type-safe :
    (value : Text)
    → (1 ≤ length (safe_operation_type value))
      × (length (safe_operation_type value) ≤ 80)
      × All IsSafeChar (safe_operation_type value)
unfolding safe_operation_type
safe_operation_type-safe value =
    let cleaned = filter keeps (join b'-' (split (map to_lower (or_operation value)))) in
    (
      take-or_operation-nonempty cleaned,
      length-take-le 80 (or_operation cleaned),
      All-take IsSafeChar 80 (or_operation cleaned)
          (or_operation-safe cleaned (cleaned-safe (or_operation value))),
    )
